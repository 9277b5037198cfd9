-- ===== src/TransportBlock/Encoder/Encoded.antt =====
-- `DlSchEncoder::encode` against a reference that encodes each code block by itself.
use syndrome.Prelude.{
  ℕ, suc, ◌+◌, ◌-◌, ◌*◌, ◌≤◌, Bool, true, false, List, [], ◌∷◌, ◌++◌, drop, length, length-append,
  length-take, length-drop, length-replicate, take_append, take-append-drop, drop_add, drop_append,
  append_assoc, append-nil, ltb, ◌==◌, not, replicate, take, concat, Result, ok, err, FecError,
  fail_if, ◌>>=◌, ◌>>◌, buffer_too_small, match_result, map_result, ◌≡◌, refl, sym, subst, ap, ap₂,
  ◌∙◌, arith,
}
use syndrome.Crc.{attach}
use syndrome.Segmentation.{segment}
use syndrome.Segmentation.Segment.{segment-length}
use syndrome.RateMatching.{RateMatchKey, RateMatchCache, check_args, rate_match_into}
use syndrome.RateMatching.Cached.{IsFresh}
use syndrome.RateMatching.Wire.{wire_bits, length-wire_bits, rate_match_into-wire_bits}
use syndrome.TransportBlock.{LdpcCode, encode_5g}
use syndrome.TransportBlock.Encoder.{DlSchEncoder, output_bits, write_at, encode_blocks, encode}

take-write_at :
    (out xs : List ℕ) (start n : ℕ)
    → start + n ≤ length out
    → length xs ≡ n
    → (take (start + n) (write_at out start xs) ≡ take start out ++ xs)
      × ((k : ℕ) → n ≤ k → drop (start + k) (write_at out start xs) ≡ drop (start + k) out)
      × (length (write_at out start xs) ≡ length out)
unfolding write_at
take-write_at out xs start n room size = (
  ap (λ (m : ℕ). take m (head ++ xs ++ drop (start + length xs) out)) {x = start + n}
        {y = length (head ++ xs)} (sym both)
      ∙ take_append (head ++ xs) (drop (start + length xs) out),
  (λ k enough.
      ap (λ (m : ℕ). drop m (head ++ xs ++ drop (start + length xs) out)) {x = start + k}
        {y = length (head ++ xs) + (k - n)} (omega (arith, both, enough))
      ∙ sym (drop_add (length (head ++ xs)) (k - n) _)
      ∙ ap (drop (k - n)) (drop_append (head ++ xs) (drop (start + length xs) out))
      ∙ drop_add (start + length xs) (k - n) out
      ∙ ap (λ (m : ℕ). drop m out) {x = start + length xs + (k - n)} {y = start + k}
          (omega (arith, size, enough))),
  omega (
    arith,
    both,
    length-append (head ++ xs) (drop (start + length xs) out),
    length-drop (start + length xs) out,
    size,
    room,
  ),
)
  where
    head : List ℕ
    head = take start out

    both : length (head ++ xs) ≡ start + n
    both = omega (arith, length-append head xs, length-take start out, size, room)

module _ {F : Type 0} (ldpc : LdpcCode F) (enc : DlSchEncoder) (rv : ℕ) where
  abbrev pub block_key : RateMatchKey
  block_key = record {
    bg = enc.params.bg;
    z = enc.params.z;
    rv = rv;
    qm = enc.qm;
    n_filler = enc.params.n_filler;
    e_bits = enc.e_per_cb;
  }

  -- What goes out for one code block.
  pub sent_block : List ℕ → Result (List ℕ)
  sent_block cb = do
    codeword ← encode_5g ldpc enc.params.bg enc.params.z cb enc.params.n_filler
    check_args rv enc.qm enc.params.z enc.e_per_cb
    ok (wire_bits block_key codeword)

  -- The reference: no cache, no shared buffer.
  pub encode_each : List ℕ → List ℕ → Result (List ℕ)
  encode_each tb out = do
    fail_if (not (length tb == enc.tb_size)) (buffer_too_small enc.tb_size (length tb))
    fail_if (ltb (length out) (output_bits enc)) (buffer_too_small (output_bits enc) (length out))
    cb_blocks ← segment (attach enc.tb_crc tb) enc.params
    parts ← map_result sent_block cb_blocks
    ok (concat parts ++ drop (output_bits enc) out)

  -- The output once the parts of the blocks from `ci` to `stop` are written.
  abbrev placed : List ℕ → ℕ → ℕ → List (List ℕ) → Result (List ℕ)
  placed out ci stop parts =
      ok (take (ci * enc.e_per_cb) out ++ concat parts ++ drop (stop * enc.e_per_cb) out)

  -- How the loop goes on from a matched block.
  abbrev from_matched :
      List (List ℕ)
      → ℕ
      → List ℕ
      → RateMatchCache
      → Result (List ℕ)
      → RateMatchCache × Result (List ℕ)
  from_matched cbs ci out cache' matched =
      match_result matched
        (λ e_buf'.
          encode_blocks ldpc enc rv cbs (ci + 1) cache' e_buf'
            (write_at out (ci * enc.e_per_cb) e_buf'))
        (λ e. (cache', err e))

  abbrev from_codeword :
      List (List ℕ)
      → ℕ
      → RateMatchCache
      → List ℕ
      → List ℕ
      → Result (List ℕ)
      → RateMatchCache × Result (List ℕ)
  from_codeword cbs ci cache e_buf out coded =
      match_result coded
        (λ codeword.
          let (cache', matched) =
            rate_match_into cache codeword e_buf rv enc.qm enc.params.bg enc.params.z
              enc.params.n_filler in
          from_matched cbs ci out cache' matched)
        (λ e. (cache, err e))

  -- The loop from block `ci` on does what the reference does.
  abbrev Loops : List (List ℕ) → ℕ → Type 0
  Loops cbs ci =
      (cache : RateMatchCache) (e_buf out : List ℕ)
      → IsFresh cache
      → length e_buf ≡ enc.e_per_cb
      → (ci + length cbs) * enc.e_per_cb ≤ length out
      → let outcome = encode_blocks ldpc enc rv cbs ci cache e_buf out in
        IsFresh outcome.0
        × (outcome.1 ≡ (map_result sent_block cbs >>= placed out ci (ci + length cbs)))

  encode_blocks_lem : (cbs : List (List ℕ)) (ci : ℕ) → Loops cbs ci
  unfolding encode_blocks sent_block
  encode_blocks_lem [] ci cache e_buf out fresh size room = (
    fresh,
    ap ok (
        sym (take-append-drop (ci * enc.e_per_cb) out)
        ∙ ap₂ (λ (l : List ℕ) (m : ℕ). l ++ drop (m * enc.e_per_cb) out) {u = ci} {v = ci + 0}
            (sym (append-nil (take (ci * enc.e_per_cb) out))) (omega arith)),
  )
  encode_blocks_lem (cb ∷ cbs) ci cache e_buf out fresh size room =
      at_codeword (encode_blocks_lem cbs (ci + 1))
        (encode_5g ldpc enc.params.bg enc.params.z cb enc.params.n_filler)
    where
      stop : ℕ
      stop = ci + suc (length cbs)

      next : Result (List ℕ) → Result (List ℕ)
      next part =
          (part >>= λ y. map_result sent_block cbs >>= λ ys. ok (y ∷ ys)) >>= placed out ci stop

      fits : ci * enc.e_per_cb + enc.e_per_cb ≤ length out
      fits = omega (arith, room)

      written : List ℕ → List ℕ
      written part = write_at out (ci * enc.e_per_cb) part

      -- What the rest of the loop makes of the buffer that holds `part`.
      go_on :
          (part : List ℕ) (rest : Result (List (List ℕ)))
          → length part ≡ enc.e_per_cb
          → (rest >>= placed (written part) (ci + 1) (ci + 1 + length cbs))
            ≡ ((rest >>= λ ys. ok (part ∷ ys)) >>= placed out ci stop)
      go_on part (ok ys) h =
          let (front, back, _) = take-write_at out part (ci * enc.e_per_cb) enc.e_per_cb fits h in
          ap ok (
            ap₂ (λ (a b : List ℕ). a ++ concat ys ++ b)
              (ap (λ (m : ℕ). take m (written part)) {x = (ci + 1) * enc.e_per_cb}
                  {y = ci * enc.e_per_cb + enc.e_per_cb} (omega arith)
                ∙ front)
              (ap (λ (m : ℕ). drop m (written part)) {x = (ci + 1 + length cbs) * enc.e_per_cb}
                  {y = ci * enc.e_per_cb + (suc (length cbs) * enc.e_per_cb)} (omega arith)
                ∙ back (suc (length cbs) * enc.e_per_cb) (omega arith)
                ∙ ap (λ (m : ℕ). drop m out)
                    {x = ci * enc.e_per_cb + suc (length cbs) * enc.e_per_cb}
                    {y = stop * enc.e_per_cb} (omega arith))
            ∙ ap (λ l. l ++ drop (stop * enc.e_per_cb) out)
                (append_assoc (take (ci * enc.e_per_cb) out) part (concat ys)))
      go_on part (err x) h = refl

      at_matched :
          Loops cbs (ci + 1)
          → (codeword : List ℕ) (checked : Result (Unit {0})) (cache' : RateMatchCache)
            (matched : Result (List ℕ))
          → IsFresh cache'
          → matched ≡ (checked >>= λ _. ok (wire_bits block_key codeword))
          → let outcome = from_matched cbs ci out cache' matched in
            IsFresh outcome.0
            × (outcome.1 ≡ next (checked >>= λ _. ok (wire_bits block_key codeword)))
      at_matched ih codeword (ok u) cache' matched fresh' e =
          subst
            (λ m.
              IsFresh (from_matched cbs ci out cache' m).0
              × ((from_matched cbs ci out cache' m).1 ≡ next (ok (wire_bits block_key codeword))))
            (sym e)
            (let (kept, same) =
                ih cache' (wire_bits block_key codeword) (written (wire_bits block_key codeword))
                  fresh' (length-wire_bits block_key codeword)
                  (omega (
                    arith,
                    (take-write_at out (wire_bits block_key codeword) (ci * enc.e_per_cb)
                        enc.e_per_cb fits (length-wire_bits block_key codeword)).2,
                    room,
                  )) in
              (
                kept,
                same
                    ∙ go_on (wire_bits block_key codeword) (map_result sent_block cbs)
                        (length-wire_bits block_key codeword),
              ))
      at_matched ih codeword (err x) cache' matched fresh' e =
          subst
            (λ m.
              IsFresh (from_matched cbs ci out cache' m).0
              × ((from_matched cbs ci out cache' m).1 ≡ err x))
            (sym e) (fresh', refl)

      at_codeword :
          Loops cbs (ci + 1)
          → (coded : Result (List ℕ))
          → let outcome = from_codeword cbs ci cache e_buf out coded in
            IsFresh outcome.0
            × (outcome.1
                ≡ next (
                    coded >>= λ codeword.
                    check_args rv enc.qm enc.params.z enc.e_per_cb
                    >> ok (wire_bits block_key codeword)))
      at_codeword ih (ok codeword) =
          let (kept, same) = rate_match_into-wire_bits cache codeword e_buf block_key fresh size in
          at_matched ih codeword (check_args rv enc.qm enc.params.z enc.e_per_cb) _ _ kept same
      at_codeword ih (err x) = (fresh, refl)

  -- With a fresh cache, `encode` returns what the reference returns that encodes and rate-matches
  -- each code block of the segmented transport block by itself and lays the parts side by side
  -- over the start of the output, errors included, and leaves a fresh cache.
  pub encode-encode_each :
      (tb out : List ℕ)
      → IsFresh enc.rm_cache
      → let outcome = encode ldpc enc tb rv out in
        IsFresh outcome.0 × (outcome.1 ≡ encode_each tb out)
  unfolding encode encode_each
  encode-encode_each tb out fresh =
      go (not (length tb == enc.tb_size)) (ltb (length out) (output_bits enc))
        (segment (attach enc.tb_crc tb) enc.params) refl refl
    where
      too_short : FecError
      too_short = buffer_too_small enc.tb_size (length tb)

      no_room : FecError
      no_room = buffer_too_small (output_bits enc) (length out)

      blocks_out : Result (List (List ℕ)) → RateMatchCache × Result (List ℕ)
      blocks_out r =
          match_result r
            (λ cb_blocks.
              encode_blocks ldpc enc rv cb_blocks 0 enc.rm_cache (replicate enc.e_per_cb 0) out)
            (λ e. (enc.rm_cache, err e))

      go :
          (wrong small : Bool) (r : Result (List (List ℕ)))
          → ltb (length out) (output_bits enc) ≡ small
          → segment (attach enc.tb_crc tb) enc.params ≡ r
          → let outcome = blocks_out (fail_if wrong too_short >> (fail_if small no_room >> r)) in
            IsFresh outcome.0
            × (outcome.1 ≡ (
                fail_if wrong too_short
                >> (fail_if small no_room
                    >> (r >>= λ cb_blocks. map_result sent_block cb_blocks >>= λ parts.
                        ok (concat parts ++ drop (output_bits enc) out)))))
      go true small r e f = (fresh, refl)
      go false true r e f = (fresh, refl)
      go false false (err x) e f = (fresh, refl)
      go false false (ok blocks) e f =
          let count = segment-length (attach enc.tb_crc tb) enc.params blocks f in
          let bits : (0 + length blocks) * enc.e_per_cb ≡ output_bits enc =
            unfold output_bits in omega (arith, ap (λ n. n * enc.e_per_cb) count) in
          let (kept, same) =
            encode_blocks_lem blocks 0 enc.rm_cache (replicate enc.e_per_cb 0) out fresh
              (length-replicate enc.e_per_cb 0) (ground (arith, bits)) in
          (
            kept,
            same
                ∙ ap₂
                    (λ (m n : ℕ). map_result sent_block blocks >>= λ parts.
                      ok (take m out ++ concat parts ++ drop n out))
                    {x = 0 * enc.e_per_cb} {y = 0} (omega arith) bits,
          )
