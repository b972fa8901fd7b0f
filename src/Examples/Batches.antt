-- ===== src/Examples/Batches.antt =====
-- The theorems on the batches of texts: two calls, of which the first to wake takes both.
use mongocore.Prelude.{
  ℕ, suc, ◌<◌, ◌≤◌, String, ◌≡◌, refl, ◌⊎◌, List, [], ◌∷◌, map, length, All, ok,
}
use mongocore.Voyage.Batch.{
  max_batch_size, VoyageClient, BatchEmbedder, new, embed_one, take_pending, flush_batch, Reach,
  begin, call, settle, wake, flush,
}
use mongocore.Voyage.Batch.Kept.{AllAnswered, Next, Reach-settles}
use mongocore.Voyage.Batch.Delivery.{IsPositional, IsRight, Reach-IsRight}

-- A service that counts its calls.
abbrev client : VoyageClient
client = record {
  Vector = String;
  World = ℕ;
  none_vector = "";
  embed = λ texts w. (ok texts, suc w);
}

abbrev embedding : String → String
embedding text = text

map_same : (texts : List String) → map embedding texts ≡ texts
map_same [] = refl
map_same (t ∷ texts) = cc (map_same texts)

positional : IsPositional client embedding
positional texts w vectors h = cc (h, map_same texts)

abbrev two_calls : BatchEmbedder client
two_calls = embed_one client "b" (embed_one client "a" (new client 0))

reached : Reach client 0 two_calls
reached = call "b" (call "a" begin)

abbrev awake : BatchEmbedder client
awake = take_pending client (record two_calls { sleeping = 1 ∷ [] })

abbrev served : BatchEmbedder client
served = flush_batch client two_calls.pending (record awake { flushing = [] })

served-Reach : Reach client 0 served
unfolding embed_one take_pending
served-Reach =
    settle (settle reached (wake [] 0 (1 ∷ []) refl)) (flush [] two_calls.pending [] refl)

Reach-settles_example : AllAnswered client two_calls ⊎ Next client two_calls
Reach-settles_example = Reach-settles client reached

Reach-IsRight_example :
    All (IsRight client embedding) served.answered
    × All (λ b. (0 < length b) × (length b ≤ max_batch_size)) served.flushing
Reach-IsRight_example = Reach-IsRight client embedding positional served-Reach
