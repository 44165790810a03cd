-- ===== src/Proxy/Forward/Relayed.antt =====
-- The loop of `forward_response`.
use s_system_programmin.Common.{
  ℕ, zero, suc, ◌+◌, ◌≤◌, ◌≡◌, refl, sym, ap, ◌∙◌, true, List, [], ◌∷◌, ◌++◌, append-nil,
  append_assoc, leb, arith, length, length-append,
}
use s_system_programmin.Proxy.Forward.{
  take, Relay, relay_chunk, relay, empty_relay, max_object_size, int_end,
}

abbrev pub joined : List (List ℕ) → List ℕ
joined [] = []
joined (xs ∷ xss) = xs ++ joined xss

pub take-append : (xs ys : List ℕ) → take (length xs) (xs ++ ys) ≡ xs
take-append [] ys = refl
take-append (x ∷ xs) ys = ap (λ zs. x ∷ zs) (take-append xs ys)

take-length : (n : ℕ) (xs : List ℕ) → length xs ≡ n → take n xs ≡ xs
take-length zero [] e = refl
take-length zero (x ∷ xs) e = absurd (omega (arith, e))
take-length (suc n) [] e = refl
take-length (suc n) (x ∷ xs) e = ap (λ zs. x ∷ zs) (take-length n xs (omega (arith, e)))

-- The bytes of `chunks` have been read behind those of `r`.
pub record Relayed (r : Relay) (bytes : List ℕ) (g : Relay) : Type 0 where
  pub size : g.size ≡ r.size + length bytes
  pub overflows : g.overflows ≡ leb int_end g.size
  pub written : g.written ≡ r.written ++ bytes
  pub body : (g.size ≤ max_object_size) → g.body ≡ r.body ++ bytes

chunk-Relayed :
    (buf : List ℕ) (r : Relay)
    → ((r.size ≤ max_object_size) → length r.body ≡ r.size)
    → Relayed r buf (relay_chunk buf r)
unfolding relay_chunk
chunk-Relayed buf r l = record {
  size = refl;
  overflows = refl;
  written = refl;
  body = λ fits.
      let small : leb (r.size + length buf) max_object_size ≡ true = ground arith in
      rw small (ap (λ xs. xs ++ buf) (take-length _ r.body (omega (arith, l (omega arith)))));
}

relay-Relayed :
    (chunks : List (List ℕ)) (r : Relay)
    → ((r.size ≤ max_object_size) → length r.body ≡ r.size)
    → r.overflows ≡ leb int_end r.size
    → Relayed r (joined chunks) (relay chunks r)
unfolding relay
relay-Relayed [] r l o = record {
  size = omega arith;
  overflows = o;
  written = sym (append-nil r.written);
  body = λ _. sym (append-nil r.body);
}
relay-Relayed (buf ∷ chunks) r l o =
    let first = chunk-Relayed buf r l in
    let fits : ((relay_chunk buf r).size ≤ max_object_size)
        → length (relay_chunk buf r).body ≡ (relay_chunk buf r).size =
      λ f. omega (
        arith,
        ap length (first.body f),
        first.size,
        length-append r.body buf,
        l (omega (arith, first.size, f)),
      ) in
    let rest = relay-Relayed chunks (relay_chunk buf r) fits first.overflows in
    record {
      size = omega (arith, rest.size, first.size, length-append buf (joined chunks));
      overflows = rest.overflows;
      written =
          rest.written
          ∙ ap (λ xs. xs ++ joined chunks) first.written
          ∙ append_assoc r.written buf (joined chunks);
      body = λ f.
          rest.body f
          ∙ ap (λ xs. xs ++ joined chunks) (first.body (omega (arith, rest.size, f)))
          ∙ append_assoc r.body buf (joined chunks);
    }

-- Whatever the pieces, all their bytes go to the client in their order and are counted; and if they
-- are at most MAX_OBJECT_SIZE, `body` has them all.
pub relay-joined :
    (chunks : List (List ℕ))
    → ((relay chunks empty_relay).size ≡ length (joined chunks))
      × ((relay chunks empty_relay).overflows ≡ leb int_end (length (joined chunks)))
      × ((relay chunks empty_relay).written ≡ joined chunks)
      × ((length (joined chunks) ≤ max_object_size)
          → (relay chunks empty_relay).body ≡ joined chunks)
relay-joined chunks =
    let all = relay-Relayed chunks empty_relay (λ _. refl) refl in
    let size : (relay chunks empty_relay).size ≡ length (joined chunks) = omega (arith, all.size) in
    (
      size,
      all.overflows ∙ ap (λ n. leb int_end n) size,
      all.written,
      λ f. all.body (omega (arith, all.size)),
    )
