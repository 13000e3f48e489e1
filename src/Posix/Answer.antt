-- ===== src/Posix/Answer.antt =====
-- gear/proxychannel.c and gear/proxysubscribe.c: the memory of a payload and of an answer, by the
-- calls that open, map and release it.
use sawang.Prelude.{
  ℕ, ◌+◌, ◌≡◌, Bool, true, false, not, ◌&&◌, [], ◌∷◌, ◌++◌, CString, length, if◌then◌else◌, arith,
}
use sawang.Posix.{
  unlinked, opened, copied, unmapped, truncated, closed, buffer, Region, mmap, shm_open, Calls,
  Posix,
}
use sawang.ProxySubscribe.{Attempt, proxy_subscribe_create_answer}
use sawang.Posix.Counts.{unlinks, held, fds}

module _ (p : Posix) where
  -- the memory of an answer, and its size, 0 on a failure
  unfoldable pub write_answer : CString → CString → Calls → ℕ × Calls
  unfolding shm_open mmap
  write_answer path respond h =
      let (found, h) = shm_open p path true h in
      if found
      then (let (ok, h) = mmap p buffer (truncated (length respond + 1) ∷ h) in
          if ok
          then (length respond + 1, closed ∷ unmapped buffer ∷ copied respond ∷ h)
          else (0, closed ∷ unlinked path ∷ h))
      else (0, h)

  -- the memory of a payload: whether its text can be read
  unfoldable pub read_payload : CString → Calls → Bool × Calls
  unfolding shm_open mmap
  read_payload path h =
      let (found, h) = shm_open p path false h in
      if found
      then (let (ok, h) = mmap p buffer h in
          (ok, if ok then closed ∷ unmapped buffer ∷ h else closed ∷ h))
      else (false, h)

  -- Nothing is left open or mapped.
  abbrev pub IsBalanced : Calls → Calls → Type 0
  IsBalanced h g = (fds g ≡ fds h) × ((r : Region) → held r g ≡ held r h)

  -- The size of an answer's memory is what the thread takes it for, where `answer_shm` is whether the
  -- memory can be opened and mapped: one byte more than its text, which is exactly what `strcpy`
  -- writes there, or 0. Whether it succeeds or not, it leaves no descriptor open and no memory
  -- mapped, and it unlinks the path only where the memory could be opened and not mapped. Reading a
  -- payload leaves nothing open, mapped or unlinked.
  pub write-IsBalanced :
      (a : Attempt) (path respond : CString) (h : Calls)
      → a.answer_shm ≡ (
          p.opens h path true
          && p.maps (truncated (length respond + 1) ∷ opened path true true ∷ h) buffer)
      → (let (n, g) = write_answer path respond h in
          (n ≡ proxy_subscribe_create_answer a respond)
          × IsBalanced h g
          × (unlinks g
              ≡ (if p.opens h path true && not a.answer_shm then path ∷ [] else []) ++ unlinks h)
          × IsBalanced h (read_payload path h).1
          × (unlinks (read_payload path h).1 ≡ unlinks h))
  unfolding write_answer read_payload proxy_subscribe_create_answer fds held unlinks
  write-IsBalanced a path respond h e = (
    ground (arith, e),
    (ground (arith, e), λ r. ground (arith, e)),
    ground (arith, e),
    (ground arith, λ r. ground arith),
    ground arith,
  )
