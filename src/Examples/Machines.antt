-- ===== src/Examples/Machines.antt =====
-- A machine whose files are kept in two maps, and the process provider on it.
use cloudeagent.Prelude.{
  ℕ, ◌≡◌, ◌≢◌, refl, ◌⊎◌, true, false, Option, none, some, List, [], ◌∷◌, ◌++◌, Text, codes, Assoc,
  lookup, insert, delete, lookup-insert, lookup-delete, text_eq_iff, All, arith,
}
use cloudeagent.Types.{Err, ok, err}
use cloudeagent.Sandbox.{Info}
use cloudeagent.Sandbox.Process.{
  File, port_file, pid_file, Host, Provider, alive, info_of, port_for, new_port, spawn,
  spawned_info, create_at, create, start,
}
use cloudeagent.Sandbox.Process.Ports.{HostLaws, user_of}
use cloudeagent.Sandbox.Process.Endpoints.{Call, creates, stops, deletes, Spares, run}
use cloudeagent.Sandbox.Process.Waking.{start_address}
use cloudeagent.Examples.Setup.{alice, bob}

record Disk : Type 0 where
  ports : Assoc Text
  pids : Assoc Text

read_file : File → Disk → Option Text
read_file (port_file u) d = lookup u d.ports
read_file (pid_file u) d = lookup u d.pids

write_file : File → Text → Disk → Disk
write_file (port_file u) s d = record d { ports = insert u s d.ports }
write_file (pid_file u) s d = record d { pids = insert u s d.pids }

remove_file : File → Disk → Disk
remove_file (port_file u) d = record d { ports = delete u d.ports }
remove_file (pid_file u) d = record d { pids = delete u d.pids }

remove_files : Text → Disk → Disk
remove_files u d = record { ports = delete u d.ports; pids = delete u d.pids }

parse : Text → Option ℕ
parse (n ∷ []) = some n
parse _ = none

abbrev machine : Host Disk
machine = record {
  itoa = λ n. n ∷ [];
  atoi = parse;
  workspace_dir = λ u. codes "/data/workspaces/" ++ u;
  make_dir = λ u d. (none, d);
  read = read_file;
  write = λ f s d. (none, write_file f s d);
  remove = remove_file;
  remove_workspace = λ u d. (none, remove_files u d);
  free_port = λ d. (ok 8100, d);
  start = λ address workspace d. (ok 77, d);
  end_child = λ n d. d;
  terminate = λ n d. d;
  kill = λ n d. d;
  running = λ n d. true;
  nap = λ d. d;
}

read-write : (f : File) (s : Text) (d : Disk) → read_file f (write_file f s d) ≡ some s
unfolding read_file write_file
read-write (port_file u) s d = ground (arith, lookup-insert u u s d.ports, text_eq_iff u u)
read-write (pid_file u) s d = ground (arith, lookup-insert u u s d.pids, text_eq_iff u u)

read-write_other :
    (f g : File) (s : Text) (d : Disk) → f ≢ g → read_file f (write_file g s d) ≡ read_file f d
unfolding read_file write_file
read-write_other (port_file u) (port_file v) s d ne =
    ground (arith, lookup-insert v u s d.ports, text_eq_iff v u, ne)
read-write_other (port_file u) (pid_file v) s d ne = refl
read-write_other (pid_file u) (port_file v) s d ne = refl
read-write_other (pid_file u) (pid_file v) s d ne =
    ground (arith, lookup-insert v u s d.pids, text_eq_iff v u, ne)

read-remove : (f g : File) (d : Disk) → f ≢ g → read_file f (remove_file g d) ≡ read_file f d
unfolding read_file remove_file
read-remove (port_file u) (port_file v) d ne =
    ground (arith, lookup-delete v u d.ports, text_eq_iff v u, ne)
read-remove (port_file u) (pid_file v) d ne = refl
read-remove (pid_file u) (port_file v) d ne = refl
read-remove (pid_file u) (pid_file v) d ne =
    ground (arith, lookup-delete v u d.pids, text_eq_iff v u, ne)

read-remove_files :
    (f : File) (v : Text) (d : Disk)
    → user_of f ≢ v
    → read_file f (remove_files v d) ≡ read_file f d
unfolding read_file remove_files
read-remove_files (port_file u) v d ne =
    ground (arith, lookup-delete v u d.ports, text_eq_iff v u, ne)
read-remove_files (pid_file u) v d ne =
    ground (arith, lookup-delete v u d.pids, text_eq_iff v u, ne)

machine-HostLaws : HostLaws machine
unfolding parse
machine-HostLaws = record {
  atoi-itoa = λ n. refl;
  read-write = λ f s d h. read-write f s d;
  read-write_other = read-write_other;
  read-remove = read-remove;
  read-remove_workspace = read-remove_files;
  read-make_dir = λ f v d. refl;
  read-free_port = λ f d. refl;
  read-start = λ f a b d. refl;
  read-end_child = λ f n d. refl;
  read-terminate = λ f n d. refl;
  read-kill = λ f n d. refl;
  read-nap = λ f d. refl;
  free_port-positive = λ n d h. ground (arith, h);
}

abbrev empty : Provider Disk
empty = record { procs = []; world = record { ports = []; pids = [] } }

abbrev calls : List Call
calls = stops alice ∷ creates bob ∷ deletes false bob ∷ []

abbrev address : Info
address = info_of machine alice 8100

created : (create machine alice empty).0 ≡ ok address
unfolding create create_at port_for new_port spawned_info spawn read_file parse lookup
created = refl

calls-Spares : All (Spares alice) calls
calls-Spares = (tt, (tt, ((λ e. cc), tt)))

start_address_example :
    let q = run machine calls (create machine alice empty).1 in
    ((start machine alice q).0 ≡ ok address)
    ⊎ ((x : Err) × ((start machine alice q).0 ≡ err x)
        × (alive machine alice q.world ≡ false)
        × ((machine.start
              (codes "127.0.0.1:" ++ machine.itoa address.port)
              (machine.workspace_dir alice)
              q.world).0
            ≡ err x))
start_address_example =
    start_address machine machine-HostLaws alice empty address calls created calls-Spares
