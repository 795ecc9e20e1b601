-- ===== src/Tests/Witnesses/Stores.antt =====
-- The theorems on blocks, vectors and the table, at a table of one block.
use lazy_tcp.Prelude.{Returns, some}
use lazy_tcp.Tcb.{Ptr}
use lazy_tcp.Vector.{Memory}
use lazy_tcp.Hash.{hash_find, hash_insert, hash_delete}
use lazy_tcp.Hash.Laws.{Looks, hash_find-Looks}
use lazy_tcp.Hash.Ready.{Inserts}
use lazy_tcp.Hash.Insert.{hash_insert-Inserts}
use lazy_tcp.Hash.Delete.{Deletes, hash_delete-Deletes}
use lazy_tcp.Tests.Tables.{
  client, held_table, held_id, held_table-IsTable, held_table-Holds, loose_table,
  loose_table-IsTable, loose_table-HasRoom, loose_table-absent,
}

abbrev zeros : Memory
zeros = some (λ _. 0)

hash_find-Looks_example : Returns (hash_find held_table client) (Looks held_table client)
hash_find-Looks_example = hash_find-Looks held_table client held_table-IsTable

abbrev held_at : Ptr
held_at = 5

hash_insert-Inserts_example :
    Returns
      (hash_insert (λ _. zeros) zeros loose_table 5)
      (Inserts (λ _. zeros) zeros loose_table client 5)
hash_insert-Inserts_example =
    hash_insert-Inserts (λ _. zeros) zeros loose_table 5 client loose_table-IsTable
      loose_table-HasRoom held_id loose_table-absent

hash_delete-Deletes_example : Returns (hash_delete held_table 5) (Deletes held_table client 5)
hash_delete-Deletes_example =
    hash_delete-Deletes held_table client 5 held_table-IsTable held_table-Holds
