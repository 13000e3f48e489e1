-- ===== src/Posix/Owned.antt =====
-- What initialising and destroying a context of shared memory leaves in the process's hands.
use sawang.Prelude.{
  OnSome, ◌+◌, ◌-◌, ◌≡◌, Bool, ◌&&◌, Option, none, some, [], ◌∷◌, ◌++◌, CString, ◌==◌,
  if◌then◌else◌, is_some, arith,
}
use sawang.Posix.Counts.{reopens, path_list, region_id, fds, unlinks, count, held}
use sawang.Posix.{ShmContext, Calls, Region, Posix}

module _ {S : Type 0} (p : Posix) (kept : Region) (path : CString) where
  -- Initialising leaves the memory and its path, or neither, and a descriptor only where the object
  -- has been opened twice.
  abbrev pub InitGives : ShmContext S → Calls → Option (Bool × ShmContext S × Calls) → Type 0
  InitGives c h none = Unit {0}
  InitGives c h (some (b, d, g)) =
      (d.path ≡ (if b then some path else none))
      × (is_some d.shm ≡ b)
      × (d.shm_unlink ≡ c.shm_unlink)
      × ((r : Region) → held r g ≡ count (b && region_id r == region_id kept) + held r h)
      × (unlinks g ≡ unlinks h)
      × (fds g ≡ count (reopens p path h) + fds h)

  -- Destroying gives the memory and the path back, and unlinks the path where that is enabled.
  abbrev pub Destroyed : ShmContext S → Calls → ShmContext S × Calls → Type 0
  Destroyed c h (d, g) =
      (d.path ≡ none)
      × (d.shm ≡ none)
      × ((r : Region)
          → held r g ≡ held r h - count (is_some c.shm && region_id r == region_id kept))
      × (unlinks g ≡ (if c.shm_unlink then path_list c.path else []) ++ unlinks h)
      × (fds g ≡ fds h)

  -- the two in order, with unlinking enabled between them or not
  abbrev pub Released : Bool → Calls → ShmContext S × Calls → Type 0
  Released unlink h (d, g) =
      (d.path ≡ none)
      × (d.shm ≡ none)
      × ((r : Region) → held r g ≡ held r h)
      × (unlinks g ≡ (if unlink then path ∷ [] else []) ++ unlinks h)
      × (fds g ≡ count (reopens p path h) + fds h)

  context-Released :
      (c d : ShmContext S) (h g : Calls) (b unlink : Bool) (out : ShmContext S × Calls)
      → InitGives c h (some (b, d, g))
      → Destroyed (record d { shm_unlink = unlink }) g out
      → Released (b && unlink) h out
  context-Released c d h g b unlink out i j = (
    j.0,
    j.1,
    λ r. ground (arith, i.3 r, j.2 r, i.1),
    ground (arith, i.0, i.4, j.3),
    ground (arith, i.5, j.4),
  )

  -- a context that is initialised, and then destroyed with unlinking enabled or not
  pub init-Released :
      (unlink : Bool) (destroy : ShmContext S → Calls → ShmContext S × Calls) (c : ShmContext S)
      (h : Calls) (out : Option (Bool × ShmContext S × Calls))
      → ((d : ShmContext S) (g : Calls) → Destroyed d g (destroy d g))
      → InitGives c h out
      → OnSome
          (λ (b, d, g). Released (b && unlink) h (destroy (record d { shm_unlink = unlink }) g))
          out
  init-Released unlink destroy c h none j i = tt
  init-Released unlink destroy c h (some (b, d, g)) j i =
      context-Released c d h g b unlink (destroy (record d { shm_unlink = unlink }) g) i
        (j (record d { shm_unlink = unlink }) g)
