-- ===== src/Servers/Stale.antt =====
-- Work that outlives its list.
use reveille.Prelude.{◌+◌, ◌%◌, ◌^◌, ◌<◌, ◌≡◌, refl, true, false, ◌==◌, arith}
use reveille.Discovery.Model.{TargetGame}
use reveille.Servers.{ServerList, ticket_of, begin_sweep, is_stale, update_list}

begin_sweep-is_stale :
    (list : ServerList) (game other : TargetGame)
    → list.generation < 2 ^ 64
    → is_stale (ticket_of other list) (begin_sweep game list) ≡ true
unfolding begin_sweep
begin_sweep-is_stale list game other h =
    let moved : ((list.generation + 1) % 2 ^ 64 == list.generation) ≡ false = ground arith in
    ground (arith, moved)

-- Whatever work for whatever game took its ticket from a list, once a foreground sweep has begun
-- none of its changes is made: the new list stays as it is, also where the generation wraps around.
pub begin_sweep-update_list :
    (list : ServerList) (game other : TargetGame) (change : ServerList → ServerList)
    → list.generation < 2 ^ 64
    → update_list (ticket_of other list) change (begin_sweep game list)
      ≡ (begin_sweep game list, false)
unfolding update_list
begin_sweep-update_list list game other change h = rw (begin_sweep-is_stale list game other h) refl
