-- ===== src/Net/Parser.antt =====
-- `SocketAddr::from_str` of `std::net`: readers over the text that is left. A reader that fails
-- consumes nothing.
use vorto.Prelude.{
  ℕ, zero, suc, ◌+◌, ◌-◌, ◌*◌, ◌^◌, Bool, true, false, not, ◌&&◌, Option, none, some, List, [], ◌∷◌,
  ◌++◌, length, ltb, leb, ◌==◌, if◌then◌else◌, is_empty,
}
use vorto.Text.{Text}

pub record Ipv4Addr : Type 0 where
  pub a : ℕ
  pub b : ℕ
  pub c : ℕ
  pub d : ℕ

-- A `SocketAddrV6` keeps its eight groups, its port and its scope id.
pub data SocketAddr : Type 0 where
  v4 : Ipv4Addr → ℕ → SocketAddr
  v6 : List ℕ → ℕ → ℕ → SocketAddr

abbrev Reader : Type 0 → Type 0
Reader A = Text → Option (A × Text)

infixl 5 ◌>>=◌ ◌>>◌
abbrev ◌>>=◌ : {A B : Type 0} → Reader A → (A → Reader B) → Reader B
◌>>=◌ m f s = elim (m s) [ none ↦ none | some (a, rest) ↦ f a rest ]

abbrev ◌>>◌ : {A B : Type 0} → Reader A → Reader B → Reader B
m >> k = m >>= λ _. k

abbrev pure : {A : Type 0} → A → Reader A
pure a s = some (a, s)

abbrev or_try : {A : Type 0} → Reader A → Reader A → Reader A
or_try m n s = elim (m s) [ none ↦ n s | some r ↦ some r ]

given_char : ℕ → Reader (Unit {0})
given_char c [] = none
given_char c (x ∷ s) = if x == c then some (tt, s) else none

-- `char::to_digit`.
to_digit : ℕ → ℕ → Option ℕ
to_digit radix c = if ltb value radix then some value else none
  where
    value : ℕ
    value =
        if leb b'0' c && leb c b'9'
        then c - b'0'
        else if leb b'a' c && leb c b'z'
        then c - b'a' + 10
        else if leb b'A' c && leb c b'Z'
        then c - b'A' + 10
        else radix

-- All leading digits, with their values.
take_digits : ℕ → Text → List ℕ × Text
take_digits radix [] = ([], [])
take_digits radix (c ∷ s) =
    let (ds, rest) = take_digits radix s in
    elim (to_digit radix c) [ none ↦ ([], c ∷ s) | some d ↦ (d ∷ ds, rest) ]

value_of : ℕ → ℕ → List ℕ → ℕ
value_of radix acc [] = acc
value_of radix acc (d ∷ ds) = value_of radix (acc * radix + d) ds

abbrev starts_with_zero : Text → Bool
starts_with_zero [] = false
starts_with_zero (c ∷ s) = c == b'0'

-- `read_number` into an integer below `bound`; too many digits, no digit, a forbidden leading zero
-- and a value out of range all fail.
read_number : ℕ → Option ℕ → Bool → ℕ → Reader ℕ
unfolding to_digit take_digits value_of
read_number radix max_digits allow_zero_prefix bound s =
    let (ds, rest) = take_digits radix s in
    let value = value_of radix 0 ds in
    let too_many : Bool = elim max_digits [ none ↦ false | some m ↦ ltb m (length ds) ] in
    if too_many
    then none
    else if is_empty ds
    then none
    else if not allow_zero_prefix && starts_with_zero s && ltb 1 (length ds)
    then none
    else if ltb value bound
    then some (value, rest)
    else none

octet : Reader ℕ
unfolding read_number
octet = read_number 10 (some 3) false 256

read_port : Reader ℕ
unfolding read_number given_char
read_port = do given_char b':'; read_number 10 none true 65536

read_ipv4 : Reader Ipv4Addr
unfolding octet given_char
read_ipv4 = do
  a ← octet
  given_char b'.'
  b ← octet
  given_char b'.'
  c ← octet
  given_char b'.'
  d ← octet
  pure (record { a = a; b = b; c = c; d = d })

-- The separator `:` stands before each group but the first.
separated : {A : Type 0} → Bool → Reader A → Reader A
unfolding given_char
separated first m = if first then m else do given_char b':'; m

-- `read_groups` with `limit` groups to fill: the groups read, and whether an IPv4 address was the
-- last of them. An IPv4 address needs room for two groups.
read_groups : ℕ → Bool → Text → List ℕ × Bool × Text
unfolding separated read_ipv4 read_number
read_groups zero first s = ([], false, s)
read_groups (suc zero) first s = elim (separated first (read_number 16 (some 4) true 65536) s) [
  | none ↦ ([], false, s)
  | some (g, rest) ↦ (g ∷ [], false, rest)
]
read_groups (suc (suc limit)) first s = elim (separated first read_ipv4 s) [
  | some (ip, rest) ↦ ((ip.a * 256 + ip.b) ∷ (ip.c * 256 + ip.d) ∷ [], true, rest)
  | none ↦ elim (separated first (read_number 16 (some 4) true 65536) s) [
    | none ↦ ([], false, s)
    | some (g, rest) ↦
        let (gs, ipv4, rest') = read_groups (suc limit) false rest in (g ∷ gs, ipv4, rest')
  ]
]

zeros : ℕ → List ℕ
zeros zero = []
zeros (suc n) = 0 ∷ zeros n

-- The groups after `::`, with the zeros that it stands for.
read_tail : List ℕ → Reader (List ℕ)
unfolding read_groups zeros
read_tail head s =
    let (tail, _, rest) = read_groups (7 - length head) true s in
    some (head ++ zeros (8 - length head - length tail) ++ tail, rest)

read_ipv6 : Reader (List ℕ)
unfolding read_tail given_char
read_ipv6 s =
    let (head, ipv4, rest) = read_groups 8 true s in
    if length head == 8
    then some (head, rest)
    else if ipv4
    then none
    else (do given_char b':'; given_char b':'; read_tail head) rest

read_scope_id : Reader ℕ
unfolding read_number given_char
read_scope_id = do given_char b'%'; read_number 10 none true (2 ^ 32)

read_v4 : Reader SocketAddr
unfolding read_ipv4 read_port
read_v4 = do ip ← read_ipv4; port ← read_port; pure (v4 ip port)

read_v6 : Reader SocketAddr
unfolding read_ipv6 read_scope_id read_port
read_v6 = do
  given_char b'['
  ip ← read_ipv6
  scope ← or_try read_scope_id (pure 0)
  given_char b']'
  port ← read_port
  pure (v6 ip port scope)

-- `str::parse::<SocketAddr>`: the whole text must be read.
unfoldable pub parse_socket_addr : Text → Option SocketAddr
unfolding read_v4 read_v6
parse_socket_addr s = elim (or_try read_v4 read_v6 s) [
  | none ↦ none
  | some (addr, rest) ↦ if is_empty rest then some addr else none
]
