-- ===== src/Db/Memory/Laws.antt =====
-- The laws of the interface, for the store in memory.
use cloudeagent.Prelude.{◌≡◌, refl, lookup-insert, lookup-delete, arith}
use cloudeagent.Types.{Outcome, Instance}
use cloudeagent.Db.Store.{StoreLaws}
use cloudeagent.Db.Memory.{
  memory_ops, create_instance, get_instance, update_instance, delete_instance, touch_activity,
  set_ws_connections,
}

-- The store in memory is an implementation of the interface that keeps each instance whole: what is
-- created, updated or deleted under one user is what is read back, and nothing else changes.
pub memory_laws : StoreLaws memory_ops
unfolding create_instance get_instance update_instance delete_instance touch_activity
    set_ws_connections
memory_laws = record {
  stored = λ o i. i;
  stamp = λ t. t;
  stored_keeps = λ o i. (refl, refl, refl, refl, refl, refl, refl, refl, refl);
  get-create = λ i u s. ground (arith, lookup-insert i.user_id u i s.instances);
  get-update = λ i u s. ground (arith, lookup-insert i.user_id u i s.instances);
  get-delete = λ v u s. ground (arith, lookup-delete v u s.instances);
  get-touch = λ t v u s. refl;
  get-set_ws = λ t v n u s. refl;
}

-- What is read back is the whole instance.
pub stored-memory : (o : Outcome Instance) (i : Instance) → memory_laws.stored o i ≡ i
unfolding memory_laws
stored-memory o i = refl
