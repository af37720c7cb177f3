-- ===== src/Storage/Buffers/Streams.antt =====
-- Streams become buffers: src/modules/common/utils/helpers/DataParser.helper.ts.
use node_back_end_boilerplat.Storage.Buffers.{
  Read, chunk, failure, overwrite, set_bytes, read_chunks, combine, push_chunks, concat, to_buffer,
  readable, readable_stream, Bytes, Result,
}
use mathlib.Core.List.{append_assoc, append-nil}
use node_back_end_boilerplat.Prelude.{
  ℕ, zero, suc, ◌+◌, String, List, [], ◌∷◌, ◌++◌, length, replicate, length-append,
  length-replicate, ◌≡◌, refl, ap, ◌∙◌, arith, sym,
}
use node_back_end_boilerplat.Effects.{Result, ok, bind_result, err}

-- The bytes of all the chunks in order, or the first error of the stream.
unfoldable pub contents : List Read → Result Bytes
contents [] = ok []
contents (chunk value ∷ reads) = bind_result (contents reads) λ rest. ok (value ++ rest)
contents (failure e ∷ reads) = err e

sum_suc : (m n : ℕ) → suc m + n ≡ suc (m + n)
sum_suc m n = omega arith

sizes : List Bytes → ℕ
sizes [] = 0
sizes (bytes ∷ chunks) = length bytes + sizes chunks

overwrite_front :
    (source : Bytes) (n : ℕ)
    → overwrite zero source (replicate (length source + n) 0) ≡ source ++ replicate n 0
unfolding overwrite
overwrite_front [] n = ap (λ m. replicate m 0) (omega arith)
overwrite_front (b ∷ source) n =
    rw (sum_suc (length source) n) (ap (◌∷◌ b) (overwrite_front source n))

overwrite_after :
    (done source : Bytes) (n : ℕ)
    → overwrite (length done) source (done ++ replicate (length source + n) 0)
      ≡ done ++ (source ++ replicate n 0)
unfolding overwrite
overwrite_after [] source n = overwrite_front source n
overwrite_after (c ∷ done) source n = ap (◌∷◌ c) (overwrite_after done source n)

set_bytes_lem :
    (done source : Bytes) (n : ℕ)
    → set_bytes (done ++ replicate (length source + n) 0) source (length done)
      ≡ ok ((done ++ source) ++ replicate n 0)
unfolding set_bytes
set_bytes_lem done source n = ground (
  arith,
  length-append done (replicate (length source + n) 0),
  length-replicate (length source + n) zero,
  overwrite_after done source n,
  append_assoc done source (replicate n 0),
)

combine_lem :
    (chunks : List Bytes) (done : Bytes)
    → combine chunks (done ++ replicate (sizes chunks) 0) (length done) ≡ ok (done ++ concat chunks)
unfolding combine sizes
combine_lem [] done = refl
combine_lem (bytes ∷ chunks) done =
    ap (λ r. bind_result r (λ written. combine chunks written (length done + length bytes)))
      (set_bytes_lem done bytes (sizes chunks))
    ∙ ap (combine chunks ((done ++ bytes) ++ replicate (sizes chunks) 0))
        (sym (length-append done bytes))
    ∙ combine_lem chunks (done ++ bytes)
    ∙ ap ok (append_assoc done bytes (concat chunks))

sizes-append :
    (chunks : List Bytes) (bytes : Bytes)
    → sizes (chunks ++ (bytes ∷ [])) ≡ sizes chunks + length bytes
unfolding sizes
sizes-append [] bytes = omega arith
sizes-append (c ∷ chunks) bytes = omega (arith, sizes-append chunks bytes)

concat-append :
    (chunks : List Bytes) (bytes : Bytes) → concat (chunks ++ (bytes ∷ [])) ≡ concat chunks ++ bytes
concat-append [] bytes = append-nil bytes
concat-append (c ∷ chunks) bytes =
    ap (◌++◌ c) (concat-append chunks bytes) ∙ sym (append_assoc c (concat chunks) bytes)

-- The total that the loop keeps is that of its chunks.
read_chunks_lem :
    (reads : List Read) (chunks : List Bytes)
    → read_chunks reads chunks (sizes chunks)
      ≡ bind_result (push_chunks reads chunks) (λ cs. ok (cs, sizes cs))
unfolding read_chunks push_chunks
read_chunks_lem [] chunks = refl
read_chunks_lem (chunk value ∷ reads) chunks =
    rw (sym (sizes-append chunks value)) (read_chunks_lem reads (chunks ++ (value ∷ [])))
read_chunks_lem (failure e ∷ reads) chunks = refl

filled :
    (r : Result (List Bytes))
    → bind_result
        (bind_result r (λ cs. ok (cs, sizes cs)))
        (λ (collected : List Bytes × ℕ). combine collected.0 (replicate collected.1 0) 0)
      ≡ bind_result r (λ cs. ok (concat cs))
filled (ok cs) = combine_lem cs []
filled (err e) = refl

appended :
    (r : Result Bytes) (front value : Bytes)
    → bind_result r (λ rest. ok ((front ++ value) ++ rest))
      ≡ bind_result (bind_result r (λ rest. ok (value ++ rest))) (λ rest. ok (front ++ rest))
appended (ok rest) front value = ap ok (append_assoc front value rest)
appended (err e) front value = refl

push_chunks_lem :
    (reads : List Read) (chunks : List Bytes)
    → bind_result (push_chunks reads chunks) (λ cs. ok (concat cs))
      ≡ bind_result (contents reads) (λ rest. ok (concat chunks ++ rest))
unfolding push_chunks contents
push_chunks_lem [] chunks = ap ok (sym (append-nil (concat chunks)))
push_chunks_lem (chunk value ∷ reads) chunks =
    push_chunks_lem reads (chunks ++ (value ∷ []))
    ∙ ap (λ front. bind_result (contents reads) (λ rest. ok (front ++ rest)))
        (concat-append chunks value)
    ∙ appended (contents reads) (concat chunks) value
push_chunks_lem (failure e ∷ reads) chunks = refl

returned : (r : Result Bytes) → bind_result r (λ rest. ok rest) ≡ r
returned (ok rest) = refl
returned (err e) = refl

-- A stream becomes the buffer of its bytes: both loops, that of Node's streams and that of the web's,
-- give the bytes of all the chunks in order, or the first error of the stream; the copying of the
-- chunks into one array is never out of bounds.
pub to_buffer-eq-contents :
    (from_text : String → String → Bytes) (reads : List Read) (encoding : String)
    → (to_buffer from_text (readable reads) encoding ≡ contents reads)
      × (to_buffer from_text (readable_stream reads) encoding ≡ contents reads)
unfolding to_buffer sizes
to_buffer-eq-contents from_text reads encoding =
    let pushed = push_chunks_lem reads [] ∙ returned (contents reads) in
    (
      pushed,
      ap
            (λ r.
              bind_result r
                (λ (collected : List Bytes × ℕ). combine collected.0 (replicate collected.1 0) 0))
            (read_chunks_lem reads [])
          ∙ filled (push_chunks reads [])
          ∙ pushed,
    )
