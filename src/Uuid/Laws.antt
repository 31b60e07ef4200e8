-- ===== src/Uuid/Laws.antt =====
-- The printed form of a UUID fits its buffer and determines the UUID.
use util_ironclad.Base.{
  ℕ, ◌<◌, ◌^◌, ap, [], ◌∷◌, ◌++◌, length, take, ◌≡◌, refl, arith, length-append, ◌≤◌, zero, suc,
  sym, ◌∙◌,
}
use util_ironclad.Libc.Text.{Bytes}
use util_ironclad.Libc.Format.{hex_wide}
use util_ironclad.Libc.Format.Laws.{length-hex_wide, hex_wide-injective, append-injective}
use util_ironclad.Uuid.{Uuid, uuid_text, uuid_to_string}

-- Every field fits the width of its C type.
pub record InRange (u : Uuid) : Type 0 where
  pub time_low_fits : u.time_low < 2 ^ 32
  pub time_mid_fits : u.time_mid < 2 ^ 16
  pub time_hi_and_version_fits : u.time_hi_and_version < 2 ^ 16
  pub clock_seq_hi_and_reserved_fits : u.clock_seq_hi_and_reserved < 2 ^ 8
  pub clock_seq_low_fits : u.clock_seq_low < 2 ^ 8
  pub node0_fits : u.node0 < 2 ^ 8
  pub node1_fits : u.node1 < 2 ^ 8
  pub node2_fits : u.node2 < 2 ^ 8
  pub node3_fits : u.node3 < 2 ^ 8
  pub node4_fits : u.node4 < 2 ^ 8
  pub node5_fits : u.node5 < 2 ^ 8

length8 : (n : ℕ) → n < 2 ^ 32 → length (hex_wide 8 n) ≡ 8
length8 n h = length-hex_wide 7 n (omega arith)

length4 : (n : ℕ) → n < 2 ^ 16 → length (hex_wide 4 n) ≡ 4
length4 n h = length-hex_wide 3 n (omega arith)

length2 : (n : ℕ) → n < 2 ^ 8 → length (hex_wide 2 n) ≡ 2
length2 n h = length-hex_wide 1 n (omega arith)

take_all : (n : ℕ) (s : Bytes) → length s ≤ n → take n s ≡ s
take_all zero [] h = refl
take_all zero (c ∷ s) h = absurd (omega arith)
take_all (suc n) [] h = refl
take_all (suc n) (c ∷ s) h = ap (λ t. c ∷ t) (take_all n s (omega arith))

length-uuid_text : (u : Uuid) → InRange u → length (uuid_text u) ≡ 36
unfolding uuid_text
length-uuid_text u r = omega (
  arith,
  length-append {0},
  length8 u.time_low r.time_low_fits,
  length4 u.time_mid r.time_mid_fits,
  length4 u.time_hi_and_version r.time_hi_and_version_fits,
  length2 u.clock_seq_hi_and_reserved r.clock_seq_hi_and_reserved_fits,
  length2 u.clock_seq_low r.clock_seq_low_fits,
  length2 u.node0 r.node0_fits,
  length2 u.node1 r.node1_fits,
  length2 u.node2 r.node2_fits,
  length2 u.node3 r.node3_fits,
  length2 u.node4 r.node4_fits,
  length2 u.node5 r.node5_fits,
)

-- For fields that fit their widths, the buffer of `UUID_STR_LEN + 1` bytes holds the whole print
-- and its zero: nothing is cut off.
pub uuid_to_string_whole :
    (u : Uuid) → InRange u → (uuid_to_string u ≡ uuid_text u) × (length (uuid_to_string u) ≡ 36)
unfolding uuid_to_string
uuid_to_string_whole u r =
    let whole = take_all 36 (uuid_text u) (omega (arith, length-uuid_text u r)) in
    (whole, ap length whole ∙ length-uuid_text u r)

-- Equal texts that begin with a number of the same width begin with the same number.
cut8 :
    (m n : ℕ) (s t : Bytes)
    → m < 2 ^ 32
    → n < 2 ^ 32
    → hex_wide 8 m ++ s ≡ hex_wide 8 n ++ t
    → (m ≡ n) × (s ≡ t)
cut8 m n s t hm hn e =
    let (p, q) = append-injective _ _ s t (length8 m hm ∙ sym (length8 n hn)) e in
    (hex_wide-injective 8 m n (omega arith) (omega arith) p, q)

cut4 :
    (m n : ℕ) (s t : Bytes)
    → m < 2 ^ 16
    → n < 2 ^ 16
    → hex_wide 4 m ++ s ≡ hex_wide 4 n ++ t
    → (m ≡ n) × (s ≡ t)
cut4 m n s t hm hn e =
    let (p, q) = append-injective _ _ s t (length4 m hm ∙ sym (length4 n hn)) e in
    (hex_wide-injective 4 m n (omega arith) (omega arith) p, q)

cut2 :
    (m n : ℕ) (s t : Bytes)
    → m < 2 ^ 8
    → n < 2 ^ 8
    → hex_wide 2 m ++ s ≡ hex_wide 2 n ++ t
    → (m ≡ n) × (s ≡ t)
cut2 m n s t hm hn e =
    let (p, q) = append-injective _ _ s t (length2 m hm ∙ sym (length2 n hn)) e in
    (hex_wide-injective 2 m n (omega arith) (omega arith) p, q)

cut_dash : (s t : Bytes) → b'-' ∷ s ≡ b'-' ∷ t → s ≡ t
cut_dash s t e = cc

uuid_text-injective : (u v : Uuid) → InRange u → InRange v → uuid_text u ≡ uuid_text v → u ≡ v
unfolding uuid_text
uuid_text-injective u v r q e =
    let (e1, f1) = cut8 u.time_low v.time_low _ _ r.time_low_fits q.time_low_fits e in
    let (e2, f2) =
      cut4 u.time_mid v.time_mid _ _ r.time_mid_fits q.time_mid_fits (cut_dash _ _ f1) in
    let (e3, f3) =
      cut4 u.time_hi_and_version v.time_hi_and_version _ _ r.time_hi_and_version_fits
        q.time_hi_and_version_fits (cut_dash _ _ f2) in
    let (e4, f4) =
      cut2 u.clock_seq_hi_and_reserved v.clock_seq_hi_and_reserved _ _
        r.clock_seq_hi_and_reserved_fits q.clock_seq_hi_and_reserved_fits (cut_dash _ _ f3) in
    let (e5, f5) =
      cut2 u.clock_seq_low v.clock_seq_low _ _ r.clock_seq_low_fits q.clock_seq_low_fits f4 in
    let (e6, f6) = cut2 u.node0 v.node0 _ _ r.node0_fits q.node0_fits (cut_dash _ _ f5) in
    let (e7, f7) = cut2 u.node1 v.node1 _ _ r.node1_fits q.node1_fits f6 in
    let (e8, f8) = cut2 u.node2 v.node2 _ _ r.node2_fits q.node2_fits f7 in
    let (e9, f9) = cut2 u.node3 v.node3 _ _ r.node3_fits q.node3_fits f8 in
    let (e10, f10) = cut2 u.node4 v.node4 _ _ r.node4_fits q.node4_fits f9 in
    let e11 = hex_wide-injective 2 u.node5 v.node5 (omega arith) (omega arith) f10 in
    λ i. record {
      time_low = e1 i;
      time_mid = e2 i;
      time_hi_and_version = e3 i;
      clock_seq_hi_and_reserved = e4 i;
      clock_seq_low = e5 i;
      node0 = e6 i;
      node1 = e7 i;
      node2 = e8 i;
      node3 = e9 i;
      node4 = e10 i;
      node5 = e11 i;
    }

-- Two UUIDs with the same print are the same, where the fields fit their widths.
pub uuid_to_string-injective :
    (u v : Uuid) → InRange u → InRange v → uuid_to_string u ≡ uuid_to_string v → u ≡ v
uuid_to_string-injective u v r q e =
    uuid_text-injective u v r q
      (sym (uuid_to_string_whole u r).0 ∙ e ∙ (uuid_to_string_whole v q).0)
