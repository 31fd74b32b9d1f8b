-- ===== src/Examples/Vouching.antt =====
-- A world that keeps a record of the health pages that were answered.
use cloudeagent.Prelude.{
  ◌≡◌, ◌⊎◌, Bool, true, false, ◌||◌, none, List, [], ◌∷◌, Text, text_eq, text_eq_self, arith,
}
use cloudeagent.Types.{ok}
use cloudeagent.Db.Cache.{new_memory_cache}
use cloudeagent.Db.Memory.{Memory, memory_ops, new_memory}
use cloudeagent.Manager.{create, wake}
use cloudeagent.Manager.Result.{is_up}
use cloudeagent.Manager.Seats
use cloudeagent.Manager.Vouching.{Record, Vouched, success-Vouched}
use cloudeagent.Manager.World.{Env, State}
use cloudeagent.Sandbox.Health.{answered}
use cloudeagent.Examples.Setup.{alice, info_for}

abbrev recording : Env Memory (List Text)
recording = record {
  store = memory_ops;
  provider = record {
    create = λ u w. (ok (info_for u), w);
    start = λ u w. (ok (info_for u), w);
    stop = λ u w. (none, w);
    delete = λ u w. (none, w);
  };
  gateway = none;
  probes = record {
    clock = record { now = λ w. 0; pause = λ d w. (none, w) };
    get_health = λ url w. (answered 200, url ∷ w);
  };
  resolve_seat = λ u w. (Seats.resolve Seats.new_mock_seats u, w);
}

abbrev nothing_yet : State Memory (List Text)
nothing_yet = record { store = new_memory; cache = new_memory_cache 300; world = [] }

is_recorded : Text → List Text → Bool
is_recorded url [] = false
is_recorded url (v ∷ w) = text_eq url v || is_recorded url w

abbrev Seen : Text → List Text → Type 0
Seen url w = is_recorded url w ≡ true

recording-Record : Record recording Seen
unfolding is_recorded
recording-Record = record {
  answers = λ url w e. ground (arith, text_eq_self url);
  lasts_resolve = λ u url w h. h;
  lasts_register = λ gw u ep url w e h. absurd (cc);
  lasts_set_config = λ gw u url cfg w e h. absurd (cc);
}

success-Vouched_example :
    ((is_up (recording.store.get_instance alice nothing_yet.store) ≡ true)
      ⊎ Vouched Seen
          (create recording alice nothing_yet).0
          (create recording alice nothing_yet).1.world)
    × ((is_up (recording.store.get_instance alice nothing_yet.store) ≡ true)
        ⊎ Vouched Seen
            (wake recording alice nothing_yet).0
            (wake recording alice nothing_yet).1.world)
success-Vouched_example = success-Vouched recording Seen recording-Record alice nothing_yet
