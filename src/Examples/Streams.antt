-- ===== src/Examples/Streams.antt =====
-- The theorem on streamed insertions, over two batches of which the second has a broken document.
use mongocore.Prelude.{◌≡◌, [], ◌∷◌, length, length-map, ok, ok_injective, ap, arith}
use mongocore.Operations.Driver.{timed}
use mongocore.Operations.Crud.{insert_many, limited}
use mongocore.Grpc.Streams.{insert_many_stream, insert_many_bidi, Batches}
use mongocore.Grpc.Streams.Agreement.{AnswersEach, Agrees, insert_many_stream-Agrees}
use mongocore.Examples.Instances.{int}
use mongocore.Examples.Dispatch.{short_bson, list_driver}

list_driver-AnswersEach : AnswersEach short_bson list_driver
unfolding insert_many limited timed
list_driver-AnswersEach target docs w ids h =
    omega (arith, ap length (ok_injective h), length-map (λ d. int 1) docs)

abbrev batches : Batches short_bson list_driver
batches =
    ok (record {
      database = "shop";
      collection = "items";
      documents = (5 ∷ 0 ∷ 0 ∷ 0 ∷ 0 ∷ []) ∷ [];
    })
    ∷ ok (record { database = "shop"; collection = "other"; documents = (1 ∷ []) ∷ [] })
    ∷ []

insert_many_stream-Agrees_example :
    ((insert_many_stream short_bson list_driver batches []).1
      ≡ (insert_many_bidi short_bson list_driver batches []).1)
    × Agrees
        (record { total_inserted = 0; errors = [] })
        (insert_many_stream short_bson list_driver batches []).0
        (insert_many_bidi short_bson list_driver batches []).0
insert_many_stream-Agrees_example =
    insert_many_stream-Agrees short_bson list_driver list_driver-AnswersEach batches []
      (omega arith, (omega arith, tt))
