-- ===== src/Turbo/Layout.antt =====
-- Where `TurboEncoder::encode` of src/turbo.rs puts the bits of its two encoders.
use syndrome.Prelude.{
  ℕ, ◌+◌, ◌-◌, ◌*◌, ◌≤◌, true, false, List, [], ◌++◌, length, length-append, length-map, drop,
  drop_add, length-drop, ltb, ◌==◌, ok, ◌≡◌, sym, ap, ◌∙◌, arith,
}
use syndrome.Turbo.{TurboEncoder, output_len, encode_interleaved, terminate, encode}
use syndrome.Turbo.Terminate.{tail_end, tail_end-zero}
use syndrome.Turbo.Weave.{
  after, triples, tail_bits, permuted, weave_natural, encode_natural_lem, encode_interleaved_lem,
  weave_lem, length-weave_natural, length-triples, after-lt, terminate_lem,
}

module _ (enc : TurboEncoder) (info out : List ℕ) where
  -- The register of each encoder after the information bits.
  abbrev pub natural_end : ℕ
  natural_end = after 0 info

  abbrev pub interleaved_end : ℕ
  interleaved_end = after 0 (permuted info enc.pi)

  -- The codeword, and what is left of the caller's buffer.
  abbrev pub layout : List ℕ
  layout =
      triples 0 0 info (permuted info enc.pi)
      ++ tail_bits 3 natural_end
      ++ tail_bits 3 interleaved_end
      ++ drop (output_len enc) out

  -- The rest of `encode` after each of its loops.
  abbrev from_tail1 : ℕ → ℕ × List ℕ → List ℕ
  from_tail1 state2 (end1, out3) = (terminate 3 (3 * enc.k + 6) state2 out3).1

  abbrev from_interleaved : ℕ → ℕ × List ℕ → List ℕ
  from_interleaved state1 (state2, out2) = from_tail1 state2 (terminate 3 (3 * enc.k) state1 out2)

  abbrev from_natural : ℕ × List ℕ → List ℕ
  from_natural (state1, out1) = from_interleaved state1 (encode_interleaved info 0 0 enc.pi out1)

  -- With an interleaver and a word of the encoder's length and room for the output, `encode`
  -- succeeds: each bit goes out with its parity in both encoders, then come the termination bits
  -- of the first and of the second register, the rest of the buffer is untouched, and both
  -- registers end in state 0.
  pub encode_lem :
      length enc.pi ≡ enc.k
      → length info ≡ enc.k
      → output_len enc ≤ length out
      → (encode enc info out ≡ ok layout)
        × (tail_end 3 natural_end ≡ 0)
        × (tail_end 3 interleaved_end ≡ 0)
  unfolding encode output_len
  encode_lem full size room =
      let fits : (length info == enc.k) ≡ true = ground (arith, size) in
      let wide : ltb (length out) (3 * enc.k + 12) ≡ false = ground (arith, room) in
      let cs = permuted info enc.pi in
      let cs_long : length cs ≡ length info = length-map enc.pi _ ∙ full ∙ sym size in
      let body = triples 0 0 info cs in
      let body_long : length body ≡ 3 * enc.k =
        omega (arith, length-triples 0 0 info cs cs_long, size) in
      let rest = drop (3 * length info) out in
      let rest_long : length rest ≡ length out - 3 * length info =
        length-drop (3 * length info) out in
      (
        rw (fits, wide)
            (ap ok (
              ap from_natural
                (encode_natural_lem 0 0 info [] out (omega arith) (omega (arith, size, room)))
              ∙ ap (from_interleaved natural_end) (
                  encode_interleaved_lem info 0 0 enc.pi [] (weave_natural 0 info out) (omega arith)
                    (omega (
                      arith,
                      size,
                      full,
                      room,
                      length-weave_natural 0 info out (omega (arith, size, room)),
                    ))
                  ∙ ap (λ l. (interleaved_end, l))
                      (weave_lem 0 0 info cs out cs_long (omega (arith, size, room))))
              ∙ ap (from_tail1 interleaved_end) (
                  terminate_lem 3 (3 * enc.k) natural_end body rest body_long
                    (omega (arith, rest_long, size, room)))
              ∙ ap (λ p. p.1)
                  (terminate_lem 3 (3 * enc.k + 6) interleaved_end (body ++ tail_bits 3 natural_end)
                    (drop 6 rest)
                    (omega (arith, body_long, length-append body (tail_bits 3 natural_end)))
                    (omega (arith, length-drop 6 rest, rest_long, size, room)))
              ∙ ap (λ l. body ++ tail_bits 3 natural_end ++ tail_bits 3 interleaved_end ++ l)
                  (drop_add 6 6 rest
                    ∙ drop_add (3 * length info) (6 + 6) out
                    ∙ ap (λ (n : ℕ). drop n out) (omega (arith, size))))),
        tail_end-zero natural_end (after-lt 0 info (omega arith)),
        tail_end-zero interleaved_end (after-lt 0 cs (omega arith)),
      )
