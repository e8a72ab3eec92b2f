-- ===== src/Sessions/Tests.antt =====
-- Runs of the session manager's model, and its theorems at concrete managers.
use leo_net.Base.{refl, [], ◌∷◌}
use leo_net.Sessions.{new_manager, init_sessions, push_from, claim_one_session, reclaim_one_session}
use leo_net.Sessions.Pool.{
  Pool, IsPartition, Reach, here, next, claim, reclaim, initial, claims-IsPartition,
}

-- Claimed from the front, given back at the end.
abbrev after_both : Pool
after_both = record {
  manager = record {
    session_id = 0;
    vct_sessions = 1 ∷ 2 ∷ 3 ∷ 4 ∷ 5 ∷ 6 ∷ 7 ∷ 8 ∷ 9 ∷ 0 ∷ [];
    map_sessions = [];
  };
  claimed = [];
}

both_reached : Reach initial after_both
unfolding init_sessions new_manager push_from claim_one_session reclaim_one_session
both_reached = next (next here (claim initial 0 _ refl)) (reclaim _ 0 [] [] _ refl refl)

claims-IsPartition_example : IsPartition after_both
claims-IsPartition_example = claims-IsPartition both_reached
