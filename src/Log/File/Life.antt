-- ===== src/Log/File/Life.antt =====
-- A LogFile of log/LogStream.cpp from its constructor to its destructor.
use tiny_network_library.Base.{
  ◌<◌, ◌≡◌, refl, ap, ◌∙◌, inl, some, List, ◌∷◌, ◌++◌, length, Bytes, append-nil, All,
}
use tiny_network_library.Log.FixedBuffer.{text}
use tiny_network_library.Log.File.{
  LogFile, Inv, append_all, flush, append_all-flush, AllPlain, concat,
}

-- The constructor opens the file for appending; `old` is its text. The array of the buffer is not set:
-- `memory` is what stands there.
unfoldable pub new : Bytes → Bytes → LogFile
new memory old = record { buffer = record { memory = memory; cur = 0 }; file = old }

-- The destructor.
unfoldable pub destroy : LogFile → LogFile
unfolding flush
destroy f = flush f

new-Inv : (memory old : Bytes) → 0 < length memory → Inv (length memory) (new memory old)
unfolding new text
new-Inv memory old h = record {
  valid = record { sized = refl; inside = h };
  ended = inl refl;
  no_zero = tt;
}

-- Whatever stands in memory at first: after the constructor, at least one message, each without a zero byte
-- and shorter than the buffer, and the destructor, the file holds its old text and then the
-- messages in order, each once; no write leaves the array.
pub append_all-destroy :
    (memory old s : Bytes) (ss : List Bytes)
    → 0 < length memory
    → AllPlain (s ∷ ss)
    → All (λ m. length m < length memory) (s ∷ ss)
    → (g : LogFile) × (append_all (s ∷ ss) (new memory old) ≡ some g)
      × ((destroy g).file ≡ old ++ concat (s ∷ ss))
unfolding destroy
append_all-destroy memory old s ss h plain short =
    let (g, e, done) = append_all-flush s ss (new-Inv memory old h) plain short in
    (g, e, done ∙ ap (λ t. t ++ concat (s ∷ ss)) (unfold new text in append-nil old))
