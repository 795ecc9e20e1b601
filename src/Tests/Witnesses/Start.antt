-- ===== src/Tests/Witnesses/Start.antt =====
-- The theorems on destroying the table and on the start of the older server.
use lazy_tcp.Prelude.{Returns, true, some, [], ◌∷◌}
use lazy_tcp.Device.{Sys}
use lazy_tcp.Hash.{hash_destroy}
use lazy_tcp.Hash.Destroy.{IsDestroyed, hash_destroy-IsDestroyed}
use lazy_tcp.Legacy.Http.{codes, byte_of}
use lazy_tcp.Legacy.Device.{Kernel}
use lazy_tcp.Legacy.Main.Start.{Arguments, Environment}
use lazy_tcp.Tests.Tables.{held_table, held_table-IsTable}
use lazy_tcp.Tests.Older.{empty_list, syn_arrival}

hash_destroy-IsDestroyed_example : Returns (hash_destroy held_table) (IsDestroyed held_table)
hash_destroy-IsDestroyed_example = hash_destroy-IsDestroyed held_table held_table-IsTable

-- one device, and commands that can be run
abbrev kernel : Kernel
kernel = record { clone_fd = some 3; ioctl = λ _ _. some (codes "tun0"); system = λ _. true }

abbrev environment : Environment
environment = record {
  ip_mem = some 16;
  dev_mem = some 48;
  tu_mem = some 80;
  kernel = kernel;
  flags = 0x1001;
  states = empty_list;
  reads = syn_arrival ∷ [];
}

abbrev arguments : Arguments
arguments = record {
  argc = 3;
  ip_arg = record { size = 64; at = byte_of (codes "10.0.0.1/24") };
  dev_arg = record { size = 52; at = byte_of (codes "tun0") };
}

abbrev nothing_open : Sys
nothing_open = record { files = []; blocks = [] }
