-- ===== src/Uuid.antt =====
-- src/commons.h: `uuid_t`; src/mount.c: `uuid_to_string`.
pub mod Laws
use util_ironclad.Base.{ℕ, ◌+◌, List, [], ◌∷◌, ◌++◌}
use util_ironclad.Libc.Text.{Bytes}
use util_ironclad.Libc.Format.{hex_wide, snprintf}

abbrev pub uuid_str_len : ℕ
uuid_str_len = 36

-- `time_low` has 32 bits, `time_mid` and `time_hi_and_version` 16, all else 8. The six bytes of the
-- array `node` are the last six fields.
pub record Uuid : Type 0 where
  pub time_low : ℕ
  pub time_mid : ℕ
  pub time_hi_and_version : ℕ
  pub clock_seq_hi_and_reserved : ℕ
  pub clock_seq_low : ℕ
  pub node0 : ℕ
  pub node1 : ℕ
  pub node2 : ℕ
  pub node3 : ℕ
  pub node4 : ℕ
  pub node5 : ℕ

-- The whole print of `uuid_to_string`, before the size of its buffer cuts it.
unfoldable pub uuid_text : Uuid → Bytes
uuid_text u =
    hex_wide 8 u.time_low
    ++ (b'-'
        ∷ (hex_wide 4 u.time_mid
            ++ (b'-'
                ∷ (hex_wide 4 u.time_hi_and_version
                    ++ (b'-'
                        ∷ (hex_wide 2 u.clock_seq_hi_and_reserved
                            ++ (hex_wide 2 u.clock_seq_low
                                ++ (b'-'
                                    ∷ (hex_wide 2 u.node0
                                        ++ (hex_wide 2 u.node1
                                            ++ (hex_wide 2 u.node2
                                                ++ (hex_wide 2 u.node3
                                                    ++ (hex_wide 2 u.node4
                                                        ++ hex_wide 2 u.node5)))))))))))))

unfoldable pub uuid_to_string : Uuid → Bytes
unfolding uuid_text
uuid_to_string u = snprintf (uuid_str_len + 1) (uuid_text u)
