-- ===== src/Tracing/Endpoints.antt =====
-- The endpoints of start_stat_server: a port of four digits fits the array, one of five does not.
use rbkit.Prelude.{
  ℕ, suc, ◌+◌, ◌*◌, ◌/◌, ◌%◌, ◌≤◌, ◌<◌, ◌≡◌, refl, inl, inr, true, false, Bool-cases, List, [], ◌∷◌,
  ◌++◌, length, length-append, ltb, leb, if◌then◌else◌, ok, fault, arith, ascii,
}
use rbkit.Tracing.Sockets.{endpoint_size, digits, sprintf_endpoint}

length-digits :
    (fuel n : ℕ)
    → length (digits (suc fuel) n) ≡ (if ltb n 10 then 1 else length (digits fuel (n / 10)) + 1)
unfolding digits
length-digits fuel n = elim (Bool-cases (ltb n 10)) [
  | inl e ↦ rw e refl
  | inr e ↦ rw e (length-append (digits fuel (n / 10)) ((48 + n % 10) ∷ []))
]

-- One digit more for a number ten times as large.
few_digits :
    (m d fuel : ℕ)
    → ((n : ℕ) → n < m → length (digits fuel n) ≤ d)
    → (n : ℕ) → n < 10 * m
    → length (digits (suc fuel) n) ≤ d + 1
few_digits m d fuel h n small = rw (length-digits fuel n) (elim (Bool-cases (ltb n 10)) [
  | inl e ↦ rw e (omega arith)
  | inr e ↦ rw e (omega (arith, h (n / 10) (omega (arith, small))))
])

many_digits :
    (m d fuel : ℕ)
    → ((n : ℕ) → m ≤ n → d ≤ length (digits fuel n))
    → 1 ≤ m
    → (n : ℕ) → 10 * m ≤ n
    → d + 1 ≤ length (digits (suc fuel) n)
many_digits m d fuel h pos n large =
    let e : ltb n 10 ≡ false = ground (arith, pos, large) in
    rw (length-digits fuel n, e) (omega (arith, h (n / 10) (omega (arith, large))))

one_digit : (fuel n : ℕ) → n < 10 → length (digits (suc fuel) n) ≤ 1
one_digit fuel n small =
    let e : ltb n 10 ≡ true = ground (arith, small) in rw (length-digits fuel n, e) (omega arith)

some_digit : (fuel n : ℕ) → 1 ≤ n → 1 ≤ length (digits (suc fuel) n)
some_digit fuel n pos = rw (length-digits fuel n) (ground arith)

four_digits : (n : ℕ) → n < 10000 → length (digits 10 n) ≤ 4
four_digits n small =
    few_digits 1000 3 9 (few_digits 100 2 8 (few_digits 10 1 7 (one_digit 6))) n
      (omega (arith, small))

five_digits : (n : ℕ) → 10000 ≤ n → 5 ≤ length (digits 10 n)
five_digits n large =
    many_digits 1000 4 9
      (many_digits 100 3 8
        (many_digits 10 2 7 (many_digits 1 1 6 (some_digit 5) (omega arith)) (omega arith))
        (omega arith))
      (omega arith) n (omega (arith, large))

abbrev pub endpoint : ℕ → List ℕ
endpoint port = ascii "tcp://127.0.0.1:" ++ digits 10 port

length-endpoint : (port : ℕ) → length (endpoint port) ≡ length (digits 10 port) + 16
length-endpoint port = omega arith

pub sprintf_endpoint-fits : (port : ℕ) → port < 10000 → sprintf_endpoint port ≡ ok (endpoint port)
unfolding sprintf_endpoint
sprintf_endpoint-fits port small =
    let e : leb (length (endpoint port) + 1) endpoint_size ≡ true =
      ground (arith, length-endpoint port, four_digits port small) in
    rw e refl

pub sprintf_endpoint-fault : (port : ℕ) → 10000 ≤ port → sprintf_endpoint port ≡ fault
unfolding sprintf_endpoint
sprintf_endpoint-fault port large =
    let e : leb (length (endpoint port) + 1) endpoint_size ≡ false =
      ground (arith, length-endpoint port, five_digits port large) in
    rw e refl
