-- ===== src/Editor/Alignment.antt =====
-- The columns of the table that `render_dashboard` of src/interactive.rs prints.
use vorto.Prelude.{
  ℕ, zero, suc, ◌+◌, ◌-◌, ◌≤◌, ◌<◌, ◌≡◌, refl, sym, ◌∙◌, Bool, true, false, ◌&&◌, [], ◌∷◌, ◌++◌,
  arith, length, length-append, take, ltb, Bool-cases, inl, inr,
}
use vorto.Text.{Text, text, decimal}
use vorto.Text.Decimal.{length-decimal}
use vorto.Config.Tunnel.{Protocol, tcp, udp, both, TunnelConfig, protocol_label}
use vorto.Editor.Dashboard.{
  truncate, repeat, padded, columns, state_label, header_columns, row_columns,
}

length-take : (n : ℕ) (s : Text) → length (take n s) ≤ n
length-take zero s = omega arith
length-take (suc n) [] = omega arith
length-take (suc n) (c ∷ s) = omega (arith, length-take n s)

take_all : (n : ℕ) (s : Text) → length s ≤ n → take n s ≡ s
take_all zero [] h = refl
take_all zero (c ∷ s) h = absurd (omega (arith, h))
take_all (suc n) [] h = refl
take_all (suc n) (c ∷ s) h = ground (arith, take_all n s (omega (arith, h)))

length-repeat : (c n : ℕ) → length (repeat c n) ≡ n
length-repeat c zero = refl
length-repeat c (suc n) = omega (arith, length-repeat c n)

-- A truncated text has at most the width given.
length-truncate : (s : Text) (width : ℕ) → length (truncate s width) ≤ width
unfolding truncate text
length-truncate s width = elim (Bool-cases (ltb width (length s) && ltb 3 width)) [
  | inl long ↦
      let room : 3 < width = ground arith in
      rw (long) (
        omega (
          arith,
          room,
          length-take (width - 3) (take width s),
          length-append (take (width - 3) (take width s)) (text "..."),
        ))
  | inr short ↦ rw (short) (length-take width s)
]

-- A text that fits is left as it is.
truncate_short : (s : Text) (width : ℕ) → length s ≤ width → truncate s width ≡ s
unfolding truncate
truncate_short s width h = ground (arith, take_all width s h)

length-padded : (width : ℕ) (s : Text) → length s ≤ width → length (padded width s) ≡ width
length-padded width s h =
    omega (
      arith,
      h,
      length-append s (repeat 32 (width - length s)),
      length-repeat 32 (width - length s),
    )

length-columns :
    (number name protocol state target : Text)
    → length number ≤ 4
    → length name ≤ 18
    → length protocol ≤ 8
    → length state ≤ 10
    → length target ≤ 24
    → length (columns number name protocol state target) ≡ 69
unfolding columns
length-columns number name protocol state target a b c d e =
    let p4 = padded 4 number in
    let p18 = padded 18 name in
    let p8 = padded 8 protocol in
    let p10 = padded 10 state in
    let p24 = padded 24 target in
    let r4 : Text = b' ' ∷ [] in
    let r3 : Text = b' ' ∷ (p24 ++ r4) in
    let r2 : Text = b' ' ∷ (p10 ++ r3) in
    let r1 : Text = b' ' ∷ (p8 ++ r2) in
    let r0 : Text = b' ' ∷ (p18 ++ r1) in
    omega (
      arith,
      length-append p4 r0,
      length-append p18 r1,
      length-append p8 r2,
      length-append p10 r3,
      length-append p24 r4,
      length-padded 4 number a,
      length-padded 18 name b,
      length-padded 8 protocol c,
      length-padded 10 state d,
      length-padded 24 target e,
    )

length-protocol_label : (p : Protocol) → length (protocol_label p) ≤ 8
unfolding protocol_label text
length-protocol_label tcp = omega arith
length-protocol_label udp = omega arith
length-protocol_label both = omega arith

length-state_label : (b : Bool) → length (state_label b) ≤ 10
unfolding text
length-state_label true = omega arith
length-state_label false = omega arith

length-header_columns : length header_columns ≡ 69
unfolding header_columns text
length-header_columns =
    length-columns (text "No.") (text "Name") (text "Proto") (text "State") (text "Remote target")
      (omega arith) (omega arith) (omega arith) (omega arith) (omega arith)

-- The columns before the last one are as wide in the row of every tunnel up to number 9999 as in
-- the header of the table, however long its name and its addresses are.
pub row_columns-aligned :
    (index : ℕ) (t : TunnelConfig)
    → index < 9999
    → length (row_columns index t) ≡ length header_columns
unfolding row_columns
row_columns-aligned index t h =
    length-columns (decimal (index + 1)) (truncate t.name 18) (protocol_label t.protocol)
      (state_label t.enabled) (truncate t.target 24)
      (length-decimal 3 (index + 1) (omega (arith, h))) (length-truncate t.name 18)
      (length-protocol_label t.protocol) (length-state_label t.enabled)
      (length-truncate t.target 24)
    ∙ sym length-header_columns
