-- ===== src/Polar/Decode.antt =====
-- On LLRs that agree with a codeword, the successive cancellation of src/polar.rs finds its input.
use syndrome.Word.Xor.{xor_cancel}
use syndrome.Prelude.{
  ℕ, zero, suc, ◌+◌, ◌^◌, ◌<◌, Bool, true, false, List, [], ◌∷◌, ◌++◌, append_assoc, length,
  length-append, length-take, length-drop, take-append-drop, drop_append, take_append, get_or, set,
  take, drop, All, All-take, All-drop, Each, bit_xor, if◌then◌else◌, ◌≡◌, refl, sym, ap, ap₂, subst,
  ◌∙◌, arith,
}
use syndrome.Polar.{
  LlrOps, ScScratch, min_sum, f_kernel, g_kernel, beta_combine, sc_decode_recursive,
}
use syndrome.Polar.Transform.{transform, take-half}
use syndrome.Polar.Blocks.{zip_xor, length-zip_xor, combine, xor_block, set-append_right}
use syndrome.Polar.Kernels.{
  IsBit, xor-IsBit, length-transform, transform-bits, SignLaws, split-Each,
}

get_or-take : (n i : ℕ) (u : List ℕ) (d : ℕ) → i < n → get_or (take n u) i d ≡ get_or u i d
get_or-take zero i u d h = absurd (omega arith)
get_or-take (suc n) i [] d h = refl
get_or-take (suc n) zero (x ∷ u) d h = refl
get_or-take (suc n) (suc i) (x ∷ u) d h = get_or-take n i u d (omega arith)

get_or-drop : (n i : ℕ) (u : List ℕ) (d : ℕ) → get_or (drop n u) i d ≡ get_or u (n + i) d
get_or-drop zero i u d = ap (λ (k : ℕ). get_or u k d) {x = i} {y = 0 + i} (omega arith)
get_or-drop (suc n) i [] d = refl
get_or-drop (suc n) i (x ∷ u) d =
    get_or-drop n i u d
    ∙ ap (λ (k : ℕ). get_or (x ∷ u) k d) {x = suc (n + i)} {y = suc n + i} (omega arith)

halves : (n : ℕ) (v rest : List ℕ) → take n v ++ (drop n v ++ rest) ≡ v ++ rest
halves n v rest =
    sym (append_assoc (take n v) (drop n v) rest)
    ∙ ap (λ (l : List ℕ). l ++ rest) (take-append-drop n v)

module _ {A : Type 0} (ops : LlrOps A) (laws : SignLaws ops) where
  abbrev pub AllAgree : List A → List ℕ → Type 0
  AllAgree = Each laws.Agrees

  f_kernel-AllAgree :
      (a b : List A) (p q : List ℕ)
      → length p ≡ length q
      → All IsBit p
      → All IsBit q
      → AllAgree a (zip_xor p q)
      → AllAgree b q
      → AllAgree (f_kernel ops a b) p
  unfolding f_kernel
  f_kernel-AllAgree [] b [] q h bp bq s t = tt
  f_kernel-AllAgree (x ∷ a) b [] q h bp bq s t = absurd s
  f_kernel-AllAgree a b (m ∷ p) [] h bp bq s t = absurd (omega arith)
  f_kernel-AllAgree [] b (m ∷ p) (n ∷ q) h bp bq s t = absurd s
  f_kernel-AllAgree (x ∷ a) [] (m ∷ p) (n ∷ q) h bp bq s t = absurd t
  f_kernel-AllAgree (x ∷ a) (y ∷ b) (m ∷ p) (n ∷ q) h bp bq s t = (
    subst (laws.Agrees (min_sum ops x y)) (xor_cancel m n)
        (laws.min_sum_agrees x y (bit_xor m n) n (xor-IsBit m n bp.0 bq.0) bq.0 s.0 t.0),
    f_kernel-AllAgree a b p q (omega arith) bp.1 bq.1 s.1 t.1,
  )

  g_kernel-AllAgree :
      (a b : List A) (p q : List ℕ)
      → length p ≡ length q
      → All IsBit p
      → All IsBit q
      → AllAgree a (zip_xor p q)
      → AllAgree b q
      → AllAgree (g_kernel ops a b p) q
  unfolding g_kernel
  g_kernel-AllAgree [] b [] [] h bp bq s t = tt
  g_kernel-AllAgree a b [] (n ∷ q) h bp bq s t = absurd (omega arith)
  g_kernel-AllAgree (x ∷ a) b [] q h bp bq s t = absurd s
  g_kernel-AllAgree a b (m ∷ p) [] h bp bq s t = absurd (omega arith)
  g_kernel-AllAgree [] b (m ∷ p) (n ∷ q) h bp bq s t = absurd s
  g_kernel-AllAgree (x ∷ a) [] (m ∷ p) (n ∷ q) h bp bq s t = absurd t
  g_kernel-AllAgree (x ∷ a) (y ∷ b) (m ∷ p) (n ∷ q) h bp bq s t = (
    laws.add_agrees x y m n bp.0 bq.0 s.0 t.0,
    g_kernel-AllAgree a b p q (omega arith) bp.1 bq.1 s.1 t.1,
  )

  -- The window of a buffer at `start`, of 2 ^ level places, is written with `v`.
  abbrev pub Window : ℕ → List ℕ → List ℕ → List ℕ → List ℕ → Type 0
  Window start buffer pre v post = (buffer ≡ pre ++ (v ++ post)) × (length pre ≡ start)

  -- The input word is zero at the frozen places of its window.
  abbrev pub FrozenZero : List Bool → ℕ → List ℕ → Type 0
  FrozenZero is_frozen start u =
      (i : ℕ) → i < length u → get_or is_frozen (start + i) true ≡ true → get_or u i 0 ≡ 0

  take-FrozenZero :
      (is_frozen : List Bool) (start n : ℕ) (u : List ℕ)
      → FrozenZero is_frozen start u
      → length (take n u) ≡ n
      → FrozenZero is_frozen start (take n u)
  take-FrozenZero is_frozen start n u zeros h i l frozen =
      get_or-take n i u 0 (omega (arith, h)) ∙ zeros i (omega (arith, h, length-take n u)) frozen

  drop-FrozenZero :
      {k : ℕ} (is_frozen : List Bool) (start n : ℕ) (u : List ℕ)
      → FrozenZero is_frozen start u
      → length u ≡ k
      → FrozenZero is_frozen (start + n) (drop n u)
  drop-FrozenZero is_frozen start n u zeros h i l frozen =
      get_or-drop n i u 0
      ∙ zeros (n + i) (omega (arith, length-drop n u)) (
          ap (λ (t : ℕ). get_or is_frozen t true) {x = start + (n + i)} {y = start + n + i}
            (omega arith)
          ∙ frozen)

  -- A write at the place after `pre`.
  set_window :
      (buffer pre rest : List ℕ) (start o v : ℕ)
      → buffer ≡ pre ++ o ∷ rest
      → length pre ≡ start
      → set buffer start v ≡ pre ++ v ∷ rest
  set_window buffer pre rest start o v e h =
      ap₂ (λ (l : List ℕ) (n : ℕ). set l n v) {y = pre ++ o ∷ rest} {v = length pre + 0} e
        (omega (arith, h))
      ∙ set-append_right pre (o ∷ rest) 0 v

  -- The part of a buffer after `pre`.
  read_window :
      (pre v rest : List ℕ) (start n : ℕ)
      → length pre ≡ start
      → length v ≡ n
      → take n (drop start (pre ++ (v ++ rest))) ≡ v
  read_window pre v rest start n h k =
      ap₂ (λ (a b : ℕ). take a (drop b (pre ++ (v ++ rest)))) (sym k) (sym h)
      ∙ ap (take (length v)) (drop_append pre (v ++ rest))
      ∙ take_append v rest

  leaf_bit :
      (is_frozen : List Bool) (start : ℕ) (l : A) (x : ℕ)
      → x < 2
      → FrozenZero is_frozen start (x ∷ [])
      → laws.Agrees l x
      → (if get_or is_frozen start true then 0 else if ops.is_negative l then 1 else 0) ≡ x
  leaf_bit is_frozen start l x b zeros agree = go (get_or is_frozen start true) refl
    where
      go :
          (frozen : Bool)
          → get_or is_frozen start true ≡ frozen
          → (if frozen then 0 else if ops.is_negative l then 1 else 0) ≡ x
      go true h = sym (
          zeros 0 (omega arith)
            (ap (λ (n : ℕ). get_or is_frozen n true) {x = start + 0} {y = start} (omega arith) ∙ h))
      go false h = laws.sign_agrees l x b agree

  pub sc_lem :
      (is_frozen : List Bool) (level : ℕ) (llr : List A) (start : ℕ) (s : ScScratch)
      (u pd od qd pb ob qb : List ℕ)
      → length u ≡ 2 ^ level
      → length od ≡ 2 ^ level
      → length ob ≡ 2 ^ level
      → All IsBit u
      → FrozenZero is_frozen start u
      → AllAgree llr (transform level u)
      → Window start s.decoded pd od qd
      → Window start s.beta pb ob qb
      → let t = sc_decode_recursive ops is_frozen level llr start s in
        (t.decoded ≡ pd ++ (u ++ qd)) × (t.beta ≡ pb ++ (transform level u ++ qb))
  unfolding sc_decode_recursive transform
  sc_lem is_frozen zero llr start s [] pd od qd pb ob qb lu ld lb bits zeros agree wd wb =
      absurd (omega arith)
  sc_lem is_frozen zero llr start s (x ∷ y ∷ u) pd od qd pb ob qb lu ld lb bits zeros agree wd wb =
      absurd (omega arith)
  sc_lem is_frozen zero llr start s (x ∷ []) pd [] qd pb ob qb lu ld lb bits zeros agree wd wb =
      absurd (omega arith)
  sc_lem is_frozen zero llr start s (x ∷ []) pd (d ∷ e ∷ od) qd pb ob qb lu ld lb bits zeros agree
        wd wb =
      absurd (omega arith)
  sc_lem is_frozen zero llr start s (x ∷ []) pd (d ∷ []) qd pb [] qb lu ld lb bits zeros agree wd
        wb =
      absurd (omega arith)
  sc_lem is_frozen zero llr start s (x ∷ []) pd (d ∷ []) qd pb (b ∷ c ∷ ob) qb lu ld lb bits zeros
        agree wd wb =
      absurd (omega arith)
  sc_lem is_frozen zero [] start s (x ∷ []) pd (d ∷ []) qd pb (b ∷ []) qb lu ld lb bits zeros agree
        wd wb =
      absurd agree
  sc_lem is_frozen zero (l ∷ llr) start s (x ∷ []) pd (d ∷ []) qd pb (b ∷ []) qb lu ld lb bits zeros
        agree wd wb =
      let is_x = leaf_bit is_frozen start l x bits.0 zeros agree.0 in
      (
        set_window s.decoded pd qd start d _ wd.0 wd.1 ∙ ap (λ (v : ℕ). pd ++ v ∷ qd) is_x,
        set_window s.beta pb qb start b _ wb.0 wb.1 ∙ ap (λ (v : ℕ). pb ++ v ∷ qb) is_x,
      )
  sc_lem is_frozen (suc level) llr start s u pd od qd pb ob qb lu ld lb bits zeros agree wd wb =
      let half = 2 ^ level in
      let ul = take half u in
      let ur = drop half u in
      let tl = transform level ul in
      let tr = transform level ur in
      let (lul, lur) = take-half level u lu in
      let (ldl, ldr) = take-half level od ld in
      let (lbl, lbr) = take-half level ob lb in
      let ltl : length tl ≡ half = length-transform level ul lul in
      let ltr : length tr ≡ half = length-transform level ur lur in
      let btl = transform-bits level ul (All-take IsBit half u bits) in
      let btr = transform-bits level ur (All-drop IsBit half u bits) in
      let a = take half llr in
      let b = drop half llr in
      let agrees : AllAgree a (zip_xor tl tr) × AllAgree b tr =
        subst (λ (n : ℕ). AllAgree (take n llr) (zip_xor tl tr) × AllAgree (drop n llr) tr)
          (length-zip_xor tl tr (ltl ∙ sym ltr) ∙ ltl)
          (split-Each laws.Agrees llr (zip_xor tl tr) tr agree) in
      let left = sc_decode_recursive ops is_frozen level (f_kernel ops a b) start s in
      let (dl, bl) =
        sc_lem is_frozen level (f_kernel ops a b) start s ul pd (take half od) (drop half od ++ qd)
          pb (take half ob) (drop half ob ++ qb) lul ldl lbl (All-take IsBit half u bits)
          (take-FrozenZero is_frozen start half u zeros lul)
          (f_kernel-AllAgree a b tl tr (ltl ∙ sym ltr) btl btr agrees.0 agrees.1)
          (wd.0 ∙ ap (λ (l : List ℕ). pd ++ l) (sym (halves half od qd)), wd.1)
          (wb.0 ∙ ap (λ (l : List ℕ). pb ++ l) (sym (halves half ob qb)), wb.1) in
      let partial = take half (drop start left.beta) in
      let is_tl : partial ≡ tl =
        ap (λ (l : List ℕ). take half (drop start l)) bl
        ∙ read_window pb tl (drop half ob ++ qb) start half wb.1 ltl in
      let right =
        sc_decode_recursive ops is_frozen level (g_kernel ops a b partial) (start + half) left in
      let (dr, br) =
        sc_lem is_frozen level (g_kernel ops a b partial) (start + half) left ur (pd ++ ul)
          (drop half od) qd (pb ++ tl) (drop half ob) qb lur ldr lbr (All-drop IsBit half u bits)
          (drop-FrozenZero is_frozen start half u zeros lu)
          (subst (λ (l : List ℕ). AllAgree (g_kernel ops a b l) tr) (sym is_tl)
            (g_kernel-AllAgree a b tl tr (ltl ∙ sym ltr) btl btr agrees.0 agrees.1))
          (
            dl ∙ sym (append_assoc pd ul (drop half od ++ qd)),
            omega (arith, length-append pd ul, wd.1, lul),
          )
          (
            bl ∙ sym (append_assoc pb tl (drop half ob ++ qb)),
            omega (arith, length-append pb tl, wb.1, ltl),
          ) in
      (
        dr ∙ append_assoc pd ul (ur ++ qd) ∙ ap (λ (l : List ℕ). pd ++ l) (halves half u qd),
        ap₂ (λ (n : ℕ) (l : List ℕ). beta_combine n half l) (sym wb.1)
              (br
                ∙ append_assoc pb tl (tr ++ qb)
                ∙ ap (λ (l : List ℕ). pb ++ l) (sym (append_assoc tl tr qb)))
            ∙ xor_block half pb tl tr qb ltl ltr
            ∙ append_assoc pb (combine (tl, tr)) qb,
      )
