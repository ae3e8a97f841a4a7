-- ===== src/Examples/StorageTests.antt =====
-- The queue of the storage service at concrete inputs.
use incubator_mesatee.Base.{Text, utf8, ◌≡◌, refl, [], ◌∷◌, arith, ◌==◌, err, starts_with}
use incubator_mesatee.Base.HashMap
use incubator_mesatee.Base.HashMap.{HashMap}
use incubator_mesatee.Examples.World.{memory}
use incubator_mesatee.Storage.Fifo.{
  Enqueued, Dequeued, enqueue-Enqueued, dequeue_empty, dequeue-Dequeued,
}
use incubator_mesatee.Storage.Keys.{element_key-collides, head_word, tail_word}
use incubator_mesatee.Storage.Queue.{
  storage_error, missing, le_bytes, from_le_bytes, next_index, tail_key, head_key, element_key,
  decode_u32, read_u32, get_head, get_tail, enqueue, dequeue,
}
use incubator_mesatee.Storage.Slots.{IsQueue}
use incubator_mesatee.Storage.Service
use incubator_mesatee.Storage.Service.{get-enqueue_other}

abbrev key : Text
key = utf8 "staged-task"

abbrev a : Text
a = utf8 "first"

abbrev b : Text
b = utf8 "second"

-- the database once `a` is in the queue
abbrev one : HashMap Text
one = (enqueue memory key a []).1

empty-IsQueue : IsQueue memory key [] 0 []
unfolding get_head get_tail read_u32 HashMap.get
empty-IsQueue = record { head_at = refl; tail_at = refl; elements = tt }

one-IsQueue : IsQueue memory key one 0 (a ∷ [])
unfolding get_head get_tail read_u32 HashMap.get HashMap.insert enqueue tail_key head_key
    element_key le_bytes from_le_bytes decode_u32 next_index ◌==◌
one-IsQueue = record { head_at = refl; tail_at = refl; elements = (refl, tt) }

enqueue-Enqueued_example : Enqueued memory key 0 (a ∷ []) b (enqueue memory key b one)
enqueue-Enqueued_example = enqueue-Enqueued memory key one 0 (a ∷ []) b (omega arith) one-IsQueue

dequeue-Dequeued_example : Dequeued memory key 0 a [] (dequeue memory key one)
dequeue-Dequeued_example = dequeue-Dequeued memory key one 0 a [] (omega arith) one-IsQueue

dequeue_empty_example : dequeue memory key [] ≡ (err (storage_error missing), [])
dequeue_empty_example = dequeue_empty memory key [] 0 empty-IsQueue

element_key-collides_example :
    (element_key key head_word ≡ head_key key) × (element_key key tail_word ≡ tail_key key)
element_key-collides_example = element_key-collides key

get-enqueue_other_example :
    HashMap.get (Service.enqueue memory key b one).1 (utf8 "task-4")
    ≡ HashMap.get one (utf8 "task-4")
unfolding starts_with
get-enqueue_other_example = get-enqueue_other memory key (utf8 "task-4") refl b one
