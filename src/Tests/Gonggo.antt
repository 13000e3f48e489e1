-- ===== src/Tests/Gonggo.antt =====
-- The theorems on gear/gonggoalive.c at concrete systems.
use sawang.Prelude.{◌≡◌, refl, true, false, []}
use sawang.Tests.Systems.{dead_posix, new_watch}
use sawang.GonggoAlive.Ends.{thread-LoopGives, LoopGives}
use sawang.GonggoAlive.Lost.{second-never-ends, lost, LosesLock}
use sawang.GonggoAlive.{gonggo_alive}

thread-LoopGives_example :
    (let (v, g, ended) = gonggo_alive dead_posix 3 new_watch [] in
      (v.gonggo_dead ≡ ended)
      × LoopGives dead_posix 3 (record new_watch { gonggo_alive_started = true }) [] ended v g)
thread-LoopGives_example = thread-LoopGives dead_posix 3 new_watch [] refl

dead-LosesLock : LosesLock dead_posix
dead-LosesLock h l = rw l refl

second-never-ends_example :
    ((gonggo_alive dead_posix 1 new_watch []).2 ≡ true)
    × ((gonggo_alive dead_posix 100 new_watch (gonggo_alive dead_posix 1 new_watch []).1).2 ≡ false)
unfolding lost
second-never-ends_example =
    second-never-ends dead_posix 0 100 new_watch new_watch [] dead-LosesLock refl refl refl
