-- ===== src/Http/Attributes/Address.antt =====
-- Which address of the forwarding header is taken for the client's.
use krakend_otel.Prelude.{
  ℕ, zero, suc, ◌-◌, ◌<◌, ◌≤◌, String, Bool, true, false, ◌≡◌, ◌≢◌, refl, Option, some, List, ◌∷◌,
  arith, contains, trim_space, split_comma, get_or, length, le_suc_cases, Bool-cases, inl, inr, ◌⊎◌,
  eq_iff, str_eq,
}
use krakend_otel.Http.Attributes.{
  HttpRequest, client_addr, forwarded_addr, forwarded_values, scan, or_first,
}

module _ (trusted s : List String) where
  -- The entry at an index, without the space around it, and whether it is a trusted proxy.
  abbrev pub entry : ℕ → String
  entry i = trim_space (get_or s i "")

  abbrev pub is_trusted : ℕ → Bool
  is_trusted i = contains (entry i) trusted

  -- The last index up to `i` whose entry is no trusted proxy, or 0 if all those after it are.
  abbrev pub IsLastUntrusted : ℕ → ℕ → Type 0
  IsLastUntrusted i j =
      (j ≤ i) × ((j ≡ 0) ⊎ (is_trusted j ≡ false)) × ((k : ℕ) → j < k → k ≤ i → is_trusted k ≡ true)

  abbrev Scanned : ℕ → Option String → Type 0
  Scanned i o = (j : ℕ) × (or_first s o ≡ entry j) × IsLastUntrusted i j

  scan_cases : (i : ℕ) → Scanned i (scan trusted s i)
  unfolding scan
  scan_cases zero = (0, refl, (omega arith, inl refl, λ k p q. absurd (omega arith)))
  scan_cases (suc i) = elim (Bool-cases (is_trusted (suc i))) [
    | inl proxy ↦
        let (j, same, (le, other, rest)) = scan_cases i in
        rw proxy (
          j,
          same,
          (
            omega arith,
            other,
            λ k p q. elim (le_suc_cases k i q) [
              | inl small ↦ rest k p small
              | inr last ↦ rw last proxy
            ],
          ),
        )
    | inr other ↦ rw other (suc i, refl, (omega arith, inr other, λ k p q. absurd (omega arith)))
  ]

-- With a remote address and some trusted proxies, a request with a forwarding header gets the
-- address of one entry of its first value: the last one, past the first, that is no trusted proxy,
-- or the first entry, trusted or not, if all after it are trusted.
pub client_addr_forwarded :
    (r : HttpRequest) (p : String) (ps : List String) (value : String) (values : List String)
    → r.remote_addr ≢ ""
    → forwarded_values r.header ≡ some (value ∷ values)
    → let trusted = p ∷ ps in
      let s = split_comma value in
      (j : ℕ) × (client_addr r trusted ≡ entry trusted s j)
      × IsLastUntrusted trusted s (length s - 1) j
unfolding client_addr forwarded_addr
client_addr_forwarded r p ps value values known found =
    let trusted = p ∷ ps in
    let s = split_comma value in
    let (j, same, last) = scan_cases trusted s (length s - 1) in
    elim (Bool-cases (str_eq r.remote_addr "")) [
      | inl empty ↦ absurd (known ((eq_iff r.remote_addr "").0 empty))
      | inr present ↦ (j, rw (present, found) same, last)
    ]
