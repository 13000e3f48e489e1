-- ===== src/Posix/Counts.antt =====
-- What a process holds after its calls: open descriptors, mapped memory, locks and conditions.
use sawang.Prelude.{
  ℕ, suc, ◌-◌, Bool, true, false, ◌&&◌, Option, none, some, List, [], ◌∷◌, CString, if◌then◌else◌,
  ◌==◌,
}
use sawang.Posix.{
  unlinked, buffer, gonggo_shm, alive_shm, unmapped, subscribe_shm, closed, opened, mapped,
  channel_shm, Region, Posix, Calls,
}

abbrev pub region_id : Region → ℕ
region_id channel_shm = 0
region_id subscribe_shm = 1
region_id alive_shm = 2
region_id gonggo_shm = 3
region_id buffer = 4

unfoldable pub fds : Calls → ℕ
fds [] = 0
fds (opened path create true ∷ h) = suc (fds h)
fds (closed ∷ h) = fds h - 1
fds (_ ∷ h) = fds h

unfoldable pub held : Region → Calls → ℕ
held r [] = 0
held r (mapped q true ∷ h) = if region_id r == region_id q then suc (held r h) else held r h
held r (unmapped q ∷ h) = if region_id r == region_id q then held r h - 1 else held r h
held r (_ ∷ h) = held r h

-- the names that have been unlinked, the latest first
unfoldable pub unlinks : Calls → List CString
unlinks [] = []
unlinks (unlinked path ∷ h) = path ∷ unlinks h
unlinks (_ ∷ h) = unlinks h

abbrev pub path_list : Option CString → List CString
path_list none = []
path_list (some path) = path ∷ []

abbrev pub count : Bool → ℕ
count b = if b then 1 else 0

module _ (p : Posix) where
  -- an object that is open already is created again, since errno is that of an earlier call
  abbrev pub reopens : CString → Calls → Bool
  reopens path h = p.opens h path false && p.no_entry (opened path false (p.opens h path false) ∷ h)
