-- ===== src/Storage/Buffers.antt =====
-- `toBuffer` of src/modules/common/utils/helpers/DataParser.helper.ts: the bytes of a text, of an array,
-- of a blob and of streams. A stream is the list of what its reads give, in order, until it is done.
pub mod Streams
use node_back_end_boilerplat.Prelude.{
  ℕ, zero, suc, ◌+◌, String, List, [], ◌∷◌, ◌++◌, length, replicate, ltb, if◌then◌else◌,
}
use node_back_end_boilerplat.Effects.{Result, ok, err, bind_result}
use node_back_end_boilerplat.Exceptions.{Thrown, native, plain_error}
use node_back_end_boilerplat.Cryptography.{Bytes}

-- What one read gives: a chunk, or an error that it throws.
pub data Read : Type 0 where
  chunk : Bytes → Read
  failure : Thrown → Read

-- The first bytes of an array stay, and those from the offset on are written over.
unfoldable pub overwrite : ℕ → Bytes → Bytes → Bytes
overwrite zero [] target = target
overwrite zero (b ∷ source) [] = []
overwrite zero (b ∷ source) (_ ∷ target) = b ∷ overwrite zero source target
overwrite (suc offset) source [] = []
overwrite (suc offset) source (c ∷ target) = c ∷ overwrite offset source target

-- `target.set(source, offset)`, which throws where the source does not fit.
unfoldable pub set_bytes : Bytes → Bytes → ℕ → Result Bytes
unfolding overwrite
set_bytes target source offset =
    if ltb (length target) (offset + length source)
    then err (native (plain_error "offset is out of bounds"))
    else ok (overwrite offset source target)

-- `chunks`, and `totalLength`, after the `while` loop
unfoldable pub read_chunks : List Read → List Bytes → ℕ → Result (List Bytes × ℕ)
read_chunks [] chunks total_length = ok (chunks, total_length)
read_chunks (chunk value ∷ reads) chunks total_length =
    read_chunks reads (chunks ++ (value ∷ [])) (total_length + length value)
read_chunks (failure e ∷ reads) chunks total_length = err e

-- The `for` loop over the chunks, from an offset on
unfoldable pub combine : List Bytes → Bytes → ℕ → Result Bytes
unfolding set_bytes
combine [] combined offset = ok combined
combine (bytes ∷ chunks) combined offset =
    bind_result (set_bytes combined bytes offset)
      λ written. combine chunks written (offset + length bytes)

-- `readableStreamToBuffer`
unfoldable pub readable_stream_to_buffer : List Read → Result Bytes
unfolding read_chunks combine
readable_stream_to_buffer reads =
    bind_result (read_chunks reads [] 0)
      λ collected. combine collected.0 (replicate collected.1 0) 0

-- The `for await` loop of `readableToBuffer`, and `Buffer.concat`
unfoldable pub push_chunks : List Read → List Bytes → Result (List Bytes)
push_chunks [] chunks = ok chunks
push_chunks (chunk value ∷ reads) chunks = push_chunks reads (chunks ++ (value ∷ []))
push_chunks (failure e ∷ reads) chunks = err e

abbrev pub concat : List Bytes → Bytes
concat [] = []
concat (bytes ∷ chunks) = bytes ++ concat chunks

unfoldable pub readable_to_buffer : List Read → Result Bytes
unfolding push_chunks
readable_to_buffer reads = bind_result (push_chunks reads []) λ chunks. ok (concat chunks)

-- What `toBuffer` is given.
pub data Source : Type 0 where
  buffer : Bytes → Source
  text : String → Source
  uint8_array : Bytes → Source
  readable : List Read → Source
  blob : Read → Source
  readable_stream : List Read → Source
  unsupported : Source

abbrev pub read_once : Read → Result Bytes
read_once (chunk value) = ok value
read_once (failure e) = err e

-- `toBuffer`; `Buffer.from` of a text and an encoding is an argument.
unfoldable pub to_buffer : (String → String → Bytes) → Source → String → Result Bytes
unfolding readable_to_buffer readable_stream_to_buffer
to_buffer from_text (buffer bytes) encoding = ok bytes
to_buffer from_text (text s) encoding = ok (from_text s encoding)
to_buffer from_text (uint8_array bytes) encoding = ok bytes
to_buffer from_text (readable reads) encoding = readable_to_buffer reads
to_buffer from_text (blob content) encoding = read_once content
to_buffer from_text (readable_stream reads) encoding = readable_stream_to_buffer reads
to_buffer from_text unsupported encoding = err (native (plain_error "Unsupported body type"))
