-- ===== src/ClientIdentity/Forged.antt =====
-- What a client writes itself into the header that app/core/client_identity.py reads.
use Prim.Native.Char.{Char, code}
use mathlib.Core.List.{append_assoc, append-nil}
use finshield_ai.Base.{
  Parsed, ℕ, suc, ◌+◌, ◌-◌, ◌≤◌, ◌≡◌, refl, sym, ap, String, false, Option, List, [], ◌∷◌, ◌++◌,
  is_empty, length, ltb, nat_beq, ◌==◌, ok, arith, Bool-cases, inl, inr,
}
use finshield_ai.OfficialSources.{string_eq}
use finshield_ai.Explanation.Untrusted.Spans.{Text}
use finshield_ai.ClientIdentity.{
  split_commas, prefix_first, entry_at, stripped, forwarded_entries, forwarded_chain,
  resolve_by_hops, resolve_client_ip, read_trusted_proxy_hops,
}

split_commas-nonempty : (text : Text) → is_empty (split_commas text) ≡ false
unfolding split_commas prefix_first
split_commas-nonempty [] = refl
split_commas-nonempty (c ∷ text) = elim (Bool-cases (nat_beq (code c) 44)) [
  | inl e ↦ rw e refl
  | inr e ↦ rw e (prefix_first-nonempty c (split_commas text))
]
  where
    prefix_first-nonempty : (c : Char) (parts : List Text) → is_empty (prefix_first c parts) ≡ false
    prefix_first-nonempty c [] = refl
    prefix_first-nonempty c (part ∷ parts) = refl

prefix_first-append :
    (c : Char) (parts others : List Text)
    → is_empty parts ≡ false
    → prefix_first c (parts ++ others) ≡ prefix_first c parts ++ others
unfolding prefix_first
prefix_first-append c [] others h = cc
prefix_first-append c (part ∷ parts) others h = refl

-- The parts before and after a comma.
split_commas-append :
    (forged value : Text) (comma : Char)
    → code comma ≡ 44
    → split_commas (forged ++ (comma ∷ value)) ≡ split_commas forged ++ split_commas value
unfolding split_commas
split_commas-append [] value comma h = rw h refl
split_commas-append (c ∷ forged) value comma h = elim (Bool-cases (nat_beq (code c) 44)) [
  | inl e ↦ rw (e, split_commas-append forged value comma h) refl
  | inr e ↦
      rw (e, split_commas-append forged value comma h)
        (prefix_first-append c (split_commas forged) (split_commas value)
          (split_commas-nonempty forged))
]

-- A position counted from the end, in a list with more before it.
entry_at-append :
    (hops : ℕ) (xs ys : List Text)
    → hops ≤ length ys
    → entry_at (length (xs ++ ys) - hops) (xs ++ ys) ≡ entry_at (length ys - hops) ys
unfolding entry_at
entry_at-append hops [] ys h = refl
entry_at-append hops (x ∷ xs) ys h =
    rw (suc_sub (length (xs ++ ys)) hops (longer hops xs ys h)) (entry_at-append hops xs ys h)
  where
    suc_sub : (n hops : ℕ) → hops ≤ n → suc n - hops ≡ suc (n - hops)
    suc_sub n hops h = omega arith

    longer : (hops : ℕ) (xs ys : List Text) → hops ≤ length ys → hops ≤ length (xs ++ ys)
    longer hops [] ys h = h
    longer hops (x ∷ xs) ys h = ground (arith, longer hops xs ys h)

length-append-Text : (xs ys : List Text) → length (xs ++ ys) ≡ length xs + length ys
length-append-Text [] ys = omega arith
length-append-Text (x ∷ xs) ys = ground (arith, length-append-Text xs ys)

module _ (strip : Text → Text) (ip_address : Text → Option Text) where
  stripped-append :
      (xs ys : List Text)
      → stripped strip ip_address (xs ++ ys)
        ≡ stripped strip ip_address xs ++ stripped strip ip_address ys
  unfolding stripped
  stripped-append [] ys = refl
  stripped-append (x ∷ xs) ys = elim (Bool-cases (is_empty (strip x))) [
    | inl e ↦ rw (e, stripped-append xs ys) refl
    | inr e ↦ rw (e, stripped-append xs ys) refl
  ]

  forwarded_entries-append :
      (xs ys : List (String × Text))
      → forwarded_entries strip ip_address (xs ++ ys)
        ≡ forwarded_entries strip ip_address xs ++ forwarded_entries strip ip_address ys
  unfolding forwarded_entries
  forwarded_entries-append [] ys = refl
  forwarded_entries-append ((key, value) ∷ xs) ys = elim (Bool-cases (key == "x-forwarded-for")) [
    | inl e ↦
        rw (e, forwarded_entries-append xs ys)
          (sym (
            append_assoc (split_commas value) (forwarded_entries strip ip_address xs)
              (forwarded_entries strip ip_address ys)))
    | inr e ↦ rw (e, forwarded_entries-append xs ys) refl
  ]

  -- Where enough entries stand after it, what stands before in a chain is not read.
  resolve_by_hops-append :
      (hops : ℕ) (client : Option Text) (headers trusted : List (String × Text)) (xs ys : List Text)
      → forwarded_chain strip ip_address headers ≡ xs ++ ys
      → forwarded_chain strip ip_address trusted ≡ ys
      → hops ≤ length ys
      → resolve_by_hops strip ip_address hops (record { headers = headers; client = client })
        ≡ resolve_by_hops strip ip_address hops (record { headers = trusted; client = client })
  unfolding resolve_by_hops
  resolve_by_hops-append hops client headers trusted xs ys e d h =
      rw
        (
          e,
          d,
          entry_at-append hops xs ys h,
          enough (length (xs ++ ys)) hops (ground (arith, length-append-Text xs ys)),
          enough (length ys) hops h,
        )
        refl
    where
      enough : (n hops : ℕ) → hops ≤ n → ltb n hops ≡ false
      enough n hops h = ground arith

  one_header :
      (value : Text)
      → forwarded_entries strip ip_address (("x-forwarded-for", value) ∷ []) ≡ split_commas value
  unfolding forwarded_entries
  one_header value = append-nil (split_commas value)

  chain_of :
      (headers : List (String × Text)) (forged value : Text) (comma : Char)
      → code comma ≡ 44
      → forwarded_chain strip ip_address
          (headers ++ (("x-forwarded-for", forged ++ (comma ∷ value)) ∷ []))
        ≡ stripped strip ip_address
            (forwarded_entries strip ip_address headers ++ split_commas forged)
          ++ forwarded_chain strip ip_address (("x-forwarded-for", value) ∷ [])
  unfolding forwarded_chain
  chain_of headers forged value comma k =
      rw
        (
          forwarded_entries-append headers (("x-forwarded-for", forged ++ (comma ∷ value)) ∷ []),
          one_header (forged ++ (comma ∷ value)),
          one_header value,
          split_commas-append forged value comma k,
          sym (
              append_assoc (forwarded_entries strip ip_address headers) (split_commas forged)
                (split_commas value)),
        )
        (stripped-append (forwarded_entries strip ip_address headers ++ split_commas forged)
          (split_commas value))

  -- A client cannot choose its address: where the header that the trusted proxies wrote has an entry
  -- for each hop that is trusted, the address is the same whatever headers, and whatever start of that
  -- header, the client has sent before it.
  pub resolve_client_ip-forged :
      (to_int : String → Parsed) (setting : Option String) (hops : ℕ) (client : Option Text)
      (headers : List (String × Text)) (forged value : Text) (comma : Char)
      → read_trusted_proxy_hops to_int setting ≡ ok hops
      → code comma ≡ 44
      → hops ≤ length (forwarded_chain strip ip_address (("x-forwarded-for", value) ∷ []))
      → resolve_client_ip strip ip_address to_int setting (record {
        headers = headers ++ (("x-forwarded-for", forged ++ (comma ∷ value)) ∷ []);
        client = client;
      })
        ≡ resolve_client_ip strip ip_address to_int setting
            (record { headers = ("x-forwarded-for", value) ∷ []; client = client })
  unfolding resolve_client_ip
  resolve_client_ip-forged to_int setting hops client headers forged value comma r k h = rw r (
      ap ok (
        resolve_by_hops-append hops client
          (headers ++ (("x-forwarded-for", forged ++ (comma ∷ value)) ∷ []))
          (("x-forwarded-for", value) ∷ [])
          (stripped strip ip_address
            (forwarded_entries strip ip_address headers ++ split_commas forged))
          (forwarded_chain strip ip_address (("x-forwarded-for", value) ∷ []))
          (chain_of headers forged value comma k) refl h))
