-- ===== src/Turbo/Weave.antt =====
-- The loops of `TurboEncoder::encode` in src/turbo.rs over the slots of the output.
use syndrome.Prelude.{
  ℕ, zero, suc, ◌+◌, ◌*◌, ◌%◌, ◌≤◌, ◌<◌, List, [], ◌∷◌, ◌++◌, map, length, length-append,
  append_assoc, append-nil, get_or, set, drop, ◌≡◌, refl, sym, ap, ap₂, ◌∙◌, arith,
}
use syndrome.Turbo.{next_state, out_z, encode_natural, encode_interleaved, terminate}
use syndrome.Turbo.Terminate.{tail_input, tail_end, next_state-lt}

-- The register after the bits.
abbrev pub after : ℕ → List ℕ → ℕ
after s [] = s
after s (b ∷ bits) = after (next_state s (b % 2)) bits

-- The bit, the first encoder's parity and the second encoder's, for each step in turn.
abbrev pub triples : ℕ → ℕ → List ℕ → List ℕ → List ℕ
triples s1 s2 [] cs = []
triples s1 s2 (b ∷ bs) [] = []
triples s1 s2 (b ∷ bs) (c ∷ cs) =
    b % 2
    ∷ out_z s1 (b % 2)
    ∷ out_z s2 (c % 2)
    ∷ triples (next_state s1 (b % 2)) (next_state s2 (c % 2)) bs cs

-- The bits of the termination steps.
abbrev pub tail_bits : ℕ → ℕ → List ℕ
tail_bits zero s = []
tail_bits (suc n) s =
    tail_input s ∷ out_z s (tail_input s) ∷ tail_bits n (next_state s (tail_input s))

abbrev pub permuted : List ℕ → List ℕ → List ℕ
permuted info pi = map (λ p. get_or info p 0) pi

set-append :
    (pre ys : List ℕ) (i j v : ℕ) → j ≡ length pre + i → set (pre ++ ys) j v ≡ pre ++ set ys i v
set-append [] ys i j v e = ap (λ (n : ℕ). set ys n v) (omega (arith, e))
set-append (x ∷ pre) ys i zero v e = absurd (omega (arith, e))
set-append (x ∷ pre) ys i (suc j) v e = ap (◌∷◌ x) (set-append pre ys i j v (omega (arith, e)))

-- What the first encoder makes of the slots from its step on, and then the second.
abbrev pub weave_natural : ℕ → List ℕ → List ℕ → List ℕ
weave_natural s [] rest = rest
weave_natural s (b ∷ bits) [] = []
weave_natural s (b ∷ bits) (x ∷ []) = []
weave_natural s (b ∷ bits) (x ∷ y ∷ []) = []
weave_natural s (b ∷ bits) (x ∷ y ∷ z ∷ rest) =
    b % 2 ∷ out_z s (b % 2) ∷ z ∷ weave_natural (next_state s (b % 2)) bits rest

abbrev weave_interleaved : ℕ → List ℕ → List ℕ → List ℕ
weave_interleaved s [] rest = rest
weave_interleaved s (c ∷ cs) [] = []
weave_interleaved s (c ∷ cs) (x ∷ []) = []
weave_interleaved s (c ∷ cs) (x ∷ y ∷ []) = []
weave_interleaved s (c ∷ cs) (x ∷ y ∷ z ∷ rest) =
    x ∷ y ∷ out_z s (c % 2) ∷ weave_interleaved (next_state s (c % 2)) cs rest

pub encode_natural_lem :
    (t s : ℕ) (bits pre rest : List ℕ)
    → length pre ≡ 3 * t
    → 3 * length bits ≤ length rest
    → encode_natural t s bits (pre ++ rest) ≡ (after s bits, pre ++ weave_natural s bits rest)
unfolding encode_natural
encode_natural_lem t s [] pre rest at room = refl
encode_natural_lem t s (b ∷ bits) pre [] at room = absurd (omega (arith, room))
encode_natural_lem t s (b ∷ bits) pre (x ∷ []) at room = absurd (omega (arith, room))
encode_natural_lem t s (b ∷ bits) pre (x ∷ y ∷ []) at room = absurd (omega (arith, room))
encode_natural_lem t s (b ∷ bits) pre (x ∷ y ∷ z ∷ rest) at room =
    let done = pre ++ b % 2 ∷ out_z s (b % 2) ∷ z ∷ [] in
    ap (λ out. encode_natural (t + 1) (next_state s (b % 2)) bits out)
      (ap (λ out. set out (3 * t + 1) (out_z s (b % 2)))
          (set-append pre (x ∷ y ∷ z ∷ rest) 0 (3 * t) (b % 2) (omega (arith, at)))
        ∙ set-append pre (b % 2 ∷ y ∷ z ∷ rest) 1 (3 * t + 1) (out_z s (b % 2)) (omega (arith, at))
        ∙ sym (append_assoc pre (b % 2 ∷ out_z s (b % 2) ∷ z ∷ []) rest))
    ∙ encode_natural_lem (t + 1) (next_state s (b % 2)) bits done rest
        (omega (arith, at, length-append pre (b % 2 ∷ out_z s (b % 2) ∷ z ∷ [])))
        (omega (arith, room))
    ∙ ap (λ out. (after s (b ∷ bits), out)) (append_assoc pre (b % 2 ∷ out_z s (b % 2) ∷ z ∷ []) _)

pub encode_interleaved_lem :
    (info : List ℕ) (t s : ℕ) (pi pre rest : List ℕ)
    → length pre ≡ 3 * t
    → 3 * length pi ≤ length rest
    → encode_interleaved info t s pi (pre ++ rest)
      ≡ (after s (permuted info pi), pre ++ weave_interleaved s (permuted info pi) rest)
unfolding encode_interleaved
encode_interleaved_lem info t s [] pre rest at room = refl
encode_interleaved_lem info t s (p ∷ pi) pre [] at room = absurd (omega (arith, room))
encode_interleaved_lem info t s (p ∷ pi) pre (x ∷ []) at room = absurd (omega (arith, room))
encode_interleaved_lem info t s (p ∷ pi) pre (x ∷ y ∷ []) at room = absurd (omega (arith, room))
encode_interleaved_lem info t s (p ∷ pi) pre (x ∷ y ∷ z ∷ rest) at room =
    let c = get_or info p 0 % 2 in
    let written = x ∷ y ∷ out_z s c ∷ [] in
    ap (λ out. encode_interleaved info (t + 1) (next_state s c) pi out)
      (set-append pre (x ∷ y ∷ z ∷ rest) 2 (3 * t + 2) (out_z s c) (omega (arith, at))
        ∙ sym (append_assoc pre written rest))
    ∙ encode_interleaved_lem info (t + 1) (next_state s c) pi (pre ++ written) rest
        (omega (arith, at, length-append pre written)) (omega (arith, room))
    ∙ ap (λ out. (after s (permuted info (p ∷ pi)), out)) (append_assoc pre written _)

-- Together they write the triples.
pub weave_lem :
    (s1 s2 : ℕ) (bs cs out : List ℕ)
    → length cs ≡ length bs
    → 3 * length bs ≤ length out
    → weave_interleaved s2 cs (weave_natural s1 bs out)
      ≡ triples s1 s2 bs cs ++ drop (3 * length bs) out
weave_lem s1 s2 [] [] out long room = refl
weave_lem s1 s2 [] (c ∷ cs) out long room = absurd (omega (arith, long))
weave_lem s1 s2 (b ∷ bs) [] out long room = absurd (omega (arith, long))
weave_lem s1 s2 (b ∷ bs) (c ∷ cs) [] long room = absurd (omega (arith, room))
weave_lem s1 s2 (b ∷ bs) (c ∷ cs) (x ∷ []) long room = absurd (omega (arith, room))
weave_lem s1 s2 (b ∷ bs) (c ∷ cs) (x ∷ y ∷ []) long room = absurd (omega (arith, room))
weave_lem s1 s2 (b ∷ bs) (c ∷ cs) (x ∷ y ∷ z ∷ out) long room =
    ap (λ l. b % 2 ∷ out_z s1 (b % 2) ∷ out_z s2 (c % 2) ∷ l)
      (weave_lem (next_state s1 (b % 2)) (next_state s2 (c % 2)) bs cs out (omega (arith, long))
          (omega (arith, room))
        ∙ ap
            (λ (n : ℕ).
              triples (next_state s1 (b % 2)) (next_state s2 (c % 2)) bs cs
              ++ drop n (x ∷ y ∷ z ∷ out))
            {x = suc (suc (suc (3 * length bs)))} {y = 3 * suc (length bs)} (omega arith))

pub length-weave_natural :
    (s : ℕ) (bits rest : List ℕ)
    → 3 * length bits ≤ length rest
    → length (weave_natural s bits rest) ≡ length rest
length-weave_natural s [] rest room = refl
length-weave_natural s (b ∷ bits) [] room = absurd (omega (arith, room))
length-weave_natural s (b ∷ bits) (x ∷ []) room = absurd (omega (arith, room))
length-weave_natural s (b ∷ bits) (x ∷ y ∷ []) room = absurd (omega (arith, room))
length-weave_natural s (b ∷ bits) (x ∷ y ∷ z ∷ rest) room =
    omega (arith, length-weave_natural (next_state s (b % 2)) bits rest (omega (arith, room)))

pub length-triples :
    (s1 s2 : ℕ) (bs cs : List ℕ)
    → length cs ≡ length bs
    → length (triples s1 s2 bs cs) ≡ 3 * length bs
length-triples s1 s2 [] cs long = omega arith
length-triples s1 s2 (b ∷ bs) [] long = absurd (omega (arith, long))
length-triples s1 s2 (b ∷ bs) (c ∷ cs) long = omega (
  arith,
  length-triples (next_state s1 (b % 2)) (next_state s2 (c % 2)) bs cs (omega (arith, long)),
)

pub after-lt : (s : ℕ) (bits : List ℕ) → s < 8 → after s bits < 8
after-lt s [] hs = hs
after-lt s (b ∷ bits) hs =
    after-lt (next_state s (b % 2)) bits (next_state-lt s (b % 2) hs (omega arith))

pub terminate_lem :
    (n base s : ℕ) (pre rest : List ℕ)
    → length pre ≡ base
    → 2 * n ≤ length rest
    → terminate n base s (pre ++ rest) ≡ (tail_end n s, pre ++ tail_bits n s ++ drop (2 * n) rest)
unfolding terminate
terminate_lem zero base s pre rest at room = ap (λ l. (s, l ++ rest)) (sym (append-nil pre))
terminate_lem (suc n) base s pre [] at room = absurd (omega (arith, room))
terminate_lem (suc n) base s pre (x ∷ []) at room = absurd (omega (arith, room))
terminate_lem (suc n) base s pre (x ∷ y ∷ rest) at room =
    let b = tail_input s in
    let written = b ∷ out_z s b ∷ [] in
    ap (λ out. terminate n (base + 2) (next_state s b) out)
      (ap (λ out. set out (base + 1) (out_z s b))
          (set-append pre (x ∷ y ∷ rest) 0 base b (omega (arith, at)))
        ∙ set-append pre (b ∷ y ∷ rest) 1 (base + 1) (out_z s b) (omega (arith, at))
        ∙ sym (append_assoc pre written rest))
    ∙ terminate_lem n (base + 2) (next_state s b) (pre ++ written) rest
        (omega (arith, at, length-append pre written)) (omega (arith, room))
    ∙ ap₂ (λ (l : List ℕ) (m : ℕ). (tail_end (suc n) s, l ++ drop m (x ∷ y ∷ rest)))
        {u = suc (suc (2 * n))} {v = 2 * suc n}
        (append_assoc pre written (tail_bits n (next_state s b))) (omega arith)
