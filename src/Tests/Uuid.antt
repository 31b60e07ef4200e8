-- ===== src/Tests/Uuid.antt =====
-- Two UUIDs and their prints.
use util_ironclad.Base.{ℕ, ◌+◌, ◌≡◌, refl, arith}
use util_ironclad.Uuid.{Uuid}
use util_ironclad.Uuid.Laws.{InRange, uuid_to_string-injective}

abbrev pub uuid_of_node : ℕ → Uuid
uuid_of_node n = record {
  time_low = 0xdeadbeef;
  time_mid = 0x1234;
  time_hi_and_version = 0x4001;
  clock_seq_hi_and_reserved = 0x80;
  clock_seq_low = 0x01;
  node0 = 1;
  node1 = 2;
  node2 = 3;
  node3 = 4;
  node4 = 255;
  node5 = n;
}

abbrev pub root_uuid : Uuid
root_uuid = uuid_of_node 6

pub root_uuid-InRange : InRange root_uuid
root_uuid-InRange = record {
  time_low_fits = omega arith;
  time_mid_fits = omega arith;
  time_hi_and_version_fits = omega arith;
  clock_seq_hi_and_reserved_fits = omega arith;
  clock_seq_low_fits = omega arith;
  node0_fits = omega arith;
  node1_fits = omega arith;
  node2_fits = omega arith;
  node3_fits = omega arith;
  node4_fits = omega arith;
  node5_fits = omega arith;
}

uuid_injective_example : uuid_of_node (2 + 4) ≡ root_uuid
uuid_injective_example =
    uuid_to_string-injective (uuid_of_node (2 + 4)) root_uuid root_uuid-InRange root_uuid-InRange
      refl
