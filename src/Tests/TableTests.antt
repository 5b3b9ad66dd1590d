-- ===== src/Tests/TableTests.antt =====
-- Tests of the tables and instances of their theorems.
use mathlib.Core.List.{Memᴰ}
use identt.Tables.LongerAddress.{longer_address_found}
use identt.Prelude.{beq_refl, some}
use identt.Table.Scans.{node_of}
use identt.Prelude.{
  ◌≡◌, ◌≢◌, ◌↔◌, ◌<◌, ◌||◌, refl, List, [], ◌∷◌, true, false, arith, codes, beq, length, map, take,
  drop,
}
use identt.Exception.{ok}
use identt.Keys.{
  u_localassoc_medium_address, i_globalassoc_medium_address, encode_secondary_key, encode_key_type,
  joined, part_bytes,
}
use identt.Keys.Hex.{hex}
use identt.Engine.Ordered.{lookup, apply}
use identt.Engine.Sorted.{with_prefix}
use identt.Messages.{TransItem}
use identt.Table.{
  Table, add_record, add_found, get_one, fetch, read_record, mem, unique_clash, get_secondary_value,
  dump_record, update_keys, update_key, batch,
}
use identt.Table.Laws.{Holds}
use identt.Table.Indexed.{IsIndexed}
use identt.Table.Preserved.{add_record-IsIndexed, add_record-Holds_ne}
use identt.Table.Lookups.{get_one_finds, get_one_sound, add_record_clash, get_one-add_record}
use identt.Table.Scans.{get_keys_from_index, at_least_one}
use identt.Table.IndexReads.{get_keys_from_index_lem, node_at}
use identt.Tables.Records.{LocalAssoc, blank_local_assoc, GlobalAssoc, blank_global_assoc}
use identt.Tables.Unique.{local_assoc_key, local_assoc_table}
use identt.Tables.UniqueLaws.{local_assoc_table-IsTable}
use identt.Tables.Indexes.{global_assoc_key, global_assoc_table}
use identt.Tests.Memory.{Memory, memory, node_codec, local_codec, global_codec, Blob, node}

abbrev pub alice : LocalAssoc
alice = record blank_local_assoc {
  id = 2;
  medium = codes "email";
  address = codes "a@b.co";
  mxid = codes "@a:b";
}

-- Another record with the address of `alice`.
abbrev rival : LocalAssoc
rival = record alice { id = 3 }

abbrev query : LocalAssoc
query = record blank_local_assoc { medium = codes "email"; address = codes "a@b.co" }

abbrev pub locals : Table Blob LocalAssoc
locals = local_assoc_table local_codec

-- A database with no entry is consistent.
pub empty-IsIndexed : IsIndexed memory node_codec locals []
unfolding lookup
empty-IsIndexed = record {
  own_id = λ i r p l h. cc h.stored;
  forward = λ i r k p l h s. cc h.stored;
  backward = λ r k v s g. cc g;
}

abbrev pub added_items : List (TransItem Blob)
added_items = dump_record memory node_codec locals false blank_local_assoc alice []

pub alice_added : add_record memory node_codec locals [] alice [] false ≡ ok (true, added_items)
unfolding add_record add_found get_one fetch read_record unique_clash get_secondary_value mem lookup
    local_assoc_key beq dump_record update_keys update_key
alice_added = refl

abbrev with_alice : Memory
with_alice = apply (batch added_items) []

add_record-IsIndexed_example :
    IsIndexed memory node_codec locals with_alice × Holds memory locals with_alice 2 alice
add_record-IsIndexed_example =
    add_record-IsIndexed memory node_codec locals (local_assoc_table-IsTable local_codec) []
      with_alice alice false added_items empty-IsIndexed (omega arith) alice_added refl

add_record-Holds_ne_example :
    Holds memory locals [] 7 rival ↔ Holds memory locals with_alice 7 rival
add_record-Holds_ne_example =
    add_record-Holds_ne memory node_codec locals (local_assoc_table-IsTable local_codec) []
      with_alice alice false added_items 7 rival empty-IsIndexed (omega arith) alice_added refl
      (omega arith) (λ e. omega arith)

alice-IsIndexed : IsIndexed memory node_codec locals with_alice
alice-IsIndexed = add_record-IsIndexed_example.0

alice_held : Holds memory locals with_alice 2 alice
alice_held = add_record-IsIndexed_example.1

has_address :
    (mem u_localassoc_medium_address locals.unique_keys
      || mem u_localassoc_medium_address locals.index_keys)
    ≡ true
unfolding mem
has_address = refl

is_unique : mem u_localassoc_medium_address locals.unique_keys ≡ true
unfolding mem
is_unique = refl

same_address :
    local_assoc_key query u_localassoc_medium_address false
    ≡ local_assoc_key alice u_localassoc_medium_address false
unfolding local_assoc_key
same_address = refl

rival_address :
    local_assoc_key rival u_localassoc_medium_address false
    ≡ local_assoc_key alice u_localassoc_medium_address false
unfolding local_assoc_key
rival_address = refl

get_one_finds_example :
    get_one memory node_codec locals with_alice query u_localassoc_medium_address ≡ ok (true, alice)
get_one_finds_example =
    get_one_finds memory node_codec locals (local_assoc_table-IsTable local_codec) with_alice query
      alice u_localassoc_medium_address 2 alice-IsIndexed has_address (omega arith) (omega arith)
      alice_held same_address

get_one-add_record_example :
    get_one memory node_codec locals with_alice query u_localassoc_medium_address ≡ ok (true, alice)
get_one-add_record_example =
    get_one-add_record memory node_codec locals (local_assoc_table-IsTable local_codec) []
      with_alice alice query u_localassoc_medium_address false added_items empty-IsIndexed
      (omega arith) has_address same_address alice_added refl

found_alice :
    get_one memory node_codec locals with_alice query u_localassoc_medium_address ≡ ok (true, alice)
found_alice =
    get_one_finds memory node_codec locals (local_assoc_table-IsTable local_codec) with_alice query
      alice u_localassoc_medium_address 2 alice-IsIndexed has_address (omega arith) (omega arith)
      alice_held same_address

get_one_sound_example :
    Holds memory locals with_alice 2 alice
    × (local_assoc_key alice u_localassoc_medium_address false
        ≡ local_assoc_key query u_localassoc_medium_address false)
get_one_sound_example =
    get_one_sound memory node_codec locals (local_assoc_table-IsTable local_codec) with_alice query
      alice u_localassoc_medium_address alice-IsIndexed has_address found_alice

add_record_clash_example :
    add_record memory node_codec locals with_alice rival [] true ≢ ok (true, added_items)
add_record_clash_example =
    add_record_clash memory node_codec locals (local_assoc_table-IsTable local_codec) with_alice
      rival alice u_localassoc_medium_address 2 true added_items alice-IsIndexed is_unique
      (omega arith) (omega arith) alice_held (λ e. omega arith) rival_address

abbrev globals : Table Blob GlobalAssoc
globals = global_assoc_table global_codec

abbrev bob : GlobalAssoc
bob = record blank_global_assoc { id = 5; medium = codes "email"; address = codes "b@b.co" }

abbrev with_bob : Memory
with_bob =
    (
      global_assoc_key bob i_globalassoc_medium_address false,
      node (record { keytype = 16; id = 5 }),
    )
    ∷ []

indexed_address :
    (mem i_globalassoc_medium_address globals.unique_keys
      || mem i_globalassoc_medium_address globals.index_keys)
    ≡ true
unfolding mem
indexed_address = refl

long_prefix : 2 < length (global_assoc_key bob i_globalassoc_medium_address true)
unfolding global_assoc_key encode_secondary_key encode_key_type joined part_bytes hex
long_prefix = omega arith

get_keys_from_index_example :
    get_keys_from_index memory node_codec globals with_bob i_globalassoc_medium_address bob 0 1
    ≡ at_least_one (
        map (node_at node_codec) (
          take 1 (
            drop 0
              (with_prefix (global_assoc_key bob i_globalassoc_medium_address true) with_bob))))
get_keys_from_index_example =
    get_keys_from_index_lem memory node_codec globals with_bob i_globalassoc_medium_address bob 0 1
      (tt, tt) indexed_address long_prefix (omega arith) (omega arith)

-- A query for an address that is one letter shorter.
abbrev short : GlobalAssoc
short = record blank_global_assoc { medium = codes "email"; address = codes "b@b.c" }

bob_indexed :
    memory.get with_bob (global_assoc_key bob i_globalassoc_medium_address false)
    ≡ some (node (record { keytype = 16; id = 5 }))
unfolding lookup
bob_indexed = rw (beq_refl (global_assoc_key bob i_globalassoc_medium_address false)) refl

longer_address_found_example :
    Memᴰ
      (node_of node_codec (node (record { keytype = 16; id = 5 })))
      (get_keys_from_index memory node_codec globals with_bob i_globalassoc_medium_address short 0
        1).1
longer_address_found_example =
    longer_address_found memory node_codec global_codec with_bob bob short (codes "o")
      (node (record { keytype = 16; id = 5 })) 1 (tt, tt) bob_indexed refl refl (omega arith)
      (omega arith) (omega arith)
