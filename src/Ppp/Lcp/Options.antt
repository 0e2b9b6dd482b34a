-- ===== src/Ppp/Lcp/Options.antt =====
-- The option lists of ppp/lcp/lcp.go: termination, round trips, and the input that panics.
use ipxbox.Common.{
  ℕ, zero, suc, ◌+◌, ◌-◌, ◌%◌, ◌<◌, ◌≤◌, ◌≡◌, ◌≢◌, refl, ap, ◌∙◌, arith, List, [], ◌∷◌, ◌++◌,
  Result, ok, err, length, drop, take, All, append_assoc, append-nil, length-append, take-append,
  drop-append, take-append-drop, length-take, length-drop,
}
use ipxbox.Common.Bytes.{IsByte, slice}
use ipxbox.Ppp.Lcp.{
  Error, slice_panic, out_of_fuel, LcpOption, unmarshal_options, marshal_options,
  unmarshal_configure, configure,
}

-- An option whose length byte can hold its length.
abbrev pub OptionFits : LcpOption → Type 0
OptionFits o = IsByte o.type × (length o.body ≤ 253)

unmarshal_options-step :
    (fuel : ℕ) (o : LcpOption) (rest : List ℕ) (result : List LcpOption)
    → OptionFits o
    → unmarshal_options (suc fuel) (o.type ∷ ((length o.body + 2) % 256) ∷ (o.body ++ rest)) result
      ≡ unmarshal_options fuel rest (result ++ (o ∷ []))
unfolding unmarshal_options
unmarshal_options-step fuel o rest result f =
    let e : (length o.body + 2) % 256 ≡ suc (suc (length o.body)) = omega arith in
    rw e
      (ground (arith, take-append o.body rest, drop-append o.body rest, length-append o.body rest))

-- Every list of options that fit decodes from its encoding.
unmarshal-marshal_options :
    (os : List LcpOption) (fuel : ℕ) (result : List LcpOption)
    → All OptionFits os
    → length os ≤ fuel
    → unmarshal_options fuel (marshal_options os) result ≡ ok (result ++ os)
unfolding marshal_options
unmarshal-marshal_options [] fuel result f h = rw append-nil (unfold unmarshal_options in refl)
unmarshal-marshal_options (o ∷ os) zero result f h = absurd (omega arith)
unmarshal-marshal_options (o ∷ os) (suc fuel) result f h =
    unmarshal_options-step fuel o (marshal_options os) result f.0
    ∙ unmarshal-marshal_options os fuel (result ++ (o ∷ [])) f.1 (omega arith)
    ∙ ap ok (append_assoc result (o ∷ []) os)

length-marshal_options : (os : List LcpOption) → length os ≤ length (marshal_options os)
unfolding marshal_options
length-marshal_options [] = omega arith
length-marshal_options (o ∷ os) =
    omega (arith, length-append o.body (marshal_options os), length-marshal_options os)

-- A list of options, each with a body of at most 253 bytes, is what its encoding decodes to.
pub unmarshal_configure-marshal :
    (os : List LcpOption)
    → All OptionFits os
    → unmarshal_configure (marshal_options os) ≡ ok (configure os)
unfolding unmarshal_configure
unmarshal_configure-marshal os f =
    rw (unmarshal-marshal_options os (length (marshal_options os)) [] f (length-marshal_options os))
      refl

unmarshal_options-ne-out_of_fuel :
    (fuel : ℕ) (bytes : List ℕ) (result : List LcpOption)
    → length bytes ≤ fuel
    → unmarshal_options fuel bytes result ≢ err out_of_fuel
unfolding unmarshal_options
unmarshal_options-ne-out_of_fuel fuel [] result h = λ e. cc
unmarshal_options-ne-out_of_fuel zero (t ∷ rest) result h = absurd (omega arith)
unmarshal_options-ne-out_of_fuel (suc fuel) (t ∷ []) result h = λ e. cc
unmarshal_options-ne-out_of_fuel (suc fuel) (t ∷ n ∷ rest) result h = ground (
  arith,
  unmarshal_options-ne-out_of_fuel fuel (drop n (t ∷ n ∷ rest))
      (result ++ (record { type = t; body = slice (t ∷ n ∷ rest) 2 n } ∷ [])),
  length-drop n (t ∷ n ∷ rest),
)

-- The option loop always ends by itself: it never runs out of the fuel that it is given, the
-- length of its input.
pub unmarshal_configure-ne-out_of_fuel :
    (bytes : List ℕ) → unmarshal_configure bytes ≢ err out_of_fuel
unfolding unmarshal_configure
unmarshal_configure-ne-out_of_fuel bytes =
    ground (arith, unmarshal_options-ne-out_of_fuel (length bytes) bytes [])

unmarshal_options_panics :
    (os : List LcpOption) (fuel t n : ℕ) (rest : List ℕ) (result : List LcpOption)
    → All OptionFits os
    → n < 2
    → length os < fuel
    → unmarshal_options fuel (marshal_options os ++ (t ∷ n ∷ rest)) result ≡ err slice_panic
unfolding marshal_options
unmarshal_options_panics os zero t n rest result f h l = absurd (omega arith)
unmarshal_options_panics [] (suc fuel) t n rest result f h l =
    unfold unmarshal_options in ground arith
unmarshal_options_panics (o ∷ os) (suc fuel) t n rest result f h l =
    rw (append_assoc o.body (marshal_options os) (t ∷ n ∷ rest)) (
      unmarshal_options-step fuel o (marshal_options os ++ (t ∷ n ∷ rest)) result f.0
      ∙ unmarshal_options_panics os fuel t n rest (result ++ (o ∷ [])) f.1 h (omega arith))

-- An option whose length byte is 0 or 1 makes the decoder panic, wherever it stands behind options
-- that fit and whatever follows it.
pub unmarshal_configure_panics :
    (os : List LcpOption) (t n : ℕ) (rest : List ℕ)
    → All OptionFits os
    → n < 2
    → unmarshal_configure (marshal_options os ++ (t ∷ n ∷ rest)) ≡ err slice_panic
unfolding unmarshal_configure
unmarshal_configure_panics os t n rest f h =
    rw
      (unmarshal_options_panics os (length (marshal_options os ++ (t ∷ n ∷ rest))) t n rest [] f h (
        omega
          (arith, length-append (marshal_options os) (t ∷ n ∷ rest), length-marshal_options os)))
      refl

marshal_options-append :
    (xs ys : List LcpOption) → marshal_options (xs ++ ys) ≡ marshal_options xs ++ marshal_options ys
unfolding marshal_options
marshal_options-append [] ys = refl
marshal_options-append (x ∷ xs) ys = ground (
  arith,
  marshal_options-append xs ys,
  append_assoc x.body (marshal_options xs) (marshal_options ys),
)

All-drop {ℓ κ} : {A : Type ℓ} (P : A → Type κ) (n : ℕ) (xs : List A) → All P xs → All P (drop n xs)
All-drop P zero xs h = h
All-drop P (suc n) [] h = h
All-drop P (suc n) (x ∷ xs) h = All-drop P n xs h.1

marshal_options_nil : marshal_options [] ≡ []
unfolding marshal_options
marshal_options_nil = refl

marshal_options-decoded :
    (t k : ℕ) (rest : List ℕ) (result : List LcpOption)
    → k ≤ length rest
    → k + 2 < 256
    → marshal_options (result ++ (record { type = t; body = take k rest } ∷ [])) ++ drop k rest
      ≡ marshal_options result ++ (t ∷ suc (suc k) ∷ rest)
unfolding marshal_options
marshal_options-decoded t k rest result h l =
    let o : LcpOption = record { type = t; body = take k rest } in
    let e : (length (take k rest) + 2) % 256 ≡ suc (suc k) = omega (arith, length-take k rest) in
    rw
      (
        marshal_options-append result (o ∷ []),
        append_assoc,
        marshal_options,
        e,
        append-nil,
        take-append-drop,
      )
      refl

marshal-unmarshal_options :
    (fuel : ℕ) (bytes : List ℕ) (result os : List LcpOption)
    → All IsByte bytes
    → unmarshal_options fuel bytes result ≡ ok os
    → marshal_options os ≡ marshal_options result ++ bytes
unfolding unmarshal_options
marshal-unmarshal_options fuel [] result os b e =
    ground (arith, append-nil (marshal_options result))
marshal-unmarshal_options zero (t ∷ rest) result os b e = cc
marshal-unmarshal_options (suc fuel) (t ∷ []) result os b e = cc
marshal-unmarshal_options (suc fuel) (t ∷ zero ∷ rest) result os b e = ground arith
marshal-unmarshal_options (suc fuel) (t ∷ suc zero ∷ rest) result os b e = ground arith
marshal-unmarshal_options (suc fuel) (t ∷ suc (suc k) ∷ rest) result os b e =
    let o : LcpOption = record { type = t; body = take k rest } in
    let q : suc (suc k) - 2 ≡ k = omega arith in
    ground (
      arith,
      q,
      marshal-unmarshal_options fuel (drop k rest) (result ++ (o ∷ [])) os
          (All-drop IsByte k rest b.1.1),
      marshal_options-decoded t k rest result,
    )

-- Every byte sequence that decodes to options is the encoding of those options.
pub marshal-unmarshal_configure :
    (bytes : List ℕ) (os : List LcpOption)
    → All IsByte bytes
    → unmarshal_configure bytes ≡ ok (configure os)
    → marshal_options os ≡ bytes
unfolding unmarshal_configure
marshal-unmarshal_configure bytes os b e = split (unmarshal_options (length bytes) bytes []) refl
  where
    split :
        (r : Result Error (List LcpOption))
        → unmarshal_options (length bytes) bytes [] ≡ r
        → marshal_options os ≡ bytes
    split (ok os') p =
        ground
          (arith, marshal-unmarshal_options (length bytes) bytes [] os' b p, marshal_options_nil)
    split (err x) p = ground arith
