-- ===== src/Events/Tests.antt =====
-- internal/adapters/log/ringbuffer.go: the buffer at concrete events.
use vibewarden.Prelude.{some_of, ◌≡◌, ◌++◌, refl, arith, List, [], ◌∷◌, take}
use vibewarden.Prelude.Int.{pos}
use vibewarden.Prelude.Text.{Text, text_of, text_eq, trim_space}
use vibewarden.Events.RingBuffer.{
  RingBuffer, new_ring_buffer, store, log, log_all, next_cursor, start_of, at_least_one,
  build_type_set, in_type_set, passes, query_from, last_cursor, query,
}
use vibewarden.Events.Contents.{latest}
use vibewarden.Events.Latest.{numbered}
use vibewarden.Events.Queries.{keep}
use vibewarden.Events.Pages.{filled, query-latest, query-resume}

abbrev own : Text → Text
own t = t

abbrev five_events : List Text
five_events = text_of "a" ∷ text_of "b" ∷ text_of "a" ∷ text_of "c" ∷ text_of "a" ∷ []

abbrev only_a : List Text
only_a = text_of " a " ∷ text_of "" ∷ []

-- Three places hold the last three of five events.
three_left :
    (query [] own 0 [] (pos 10) (filled [] (pos 3) five_events)).0
    ≡ record { cursor = 3; event = text_of "a" }
      ∷ record { cursor = 4; event = text_of "c" }
      ∷ record { cursor = 5; event = text_of "a" }
      ∷ []
unfolding new_ring_buffer store log log_all next_cursor start_of at_least_one build_type_set
    in_type_set passes query_from last_cursor query
three_left = refl

first_page :
    query [] own 0 only_a (pos 1) (filled [] (pos 3) five_events)
    ≡ (record { cursor = 3; event = text_of "a" } ∷ [], 3)
unfolding new_ring_buffer store log log_all next_cursor start_of at_least_one build_type_set
    in_type_set passes query_from last_cursor query text_eq trim_space some_of
first_page = refl

query-latest_example :
    (query [] own 3 only_a (pos 2) (filled [] (pos 3) five_events)).0
    ≡ take (at_least_one (pos 2)) (
        keep
          (passes own 3 (build_type_set only_a))
          (latest (new_ring_buffer {E = Text} [] (pos 3)).capacity (numbered 0 five_events)))
query-latest_example = query-latest [] own (pos 3) five_events 3 only_a (pos 2)

query-resume_example :
    let buffer = filled {E = Text} [] (pos 3) five_events in
    let page = query [] own 0 only_a (pos 1) buffer in
    page.0 ++ (query [] own page.1 only_a (pos 9) buffer).0
    ≡ (query [] own 0 only_a (pos 9) buffer).0
unfolding new_ring_buffer
query-resume_example =
    query-resume [] own (pos 3) five_events 0 only_a (pos 1) 9 (omega arith) (omega arith)

-- Two concurrent calls whose stores come in the other order than their cursors: a client that resumes from
-- its first page does not see the first event.
abbrev crossed : RingBuffer Text
crossed =
    store 1 (text_of "a")
      (store 2 (text_of "b") (record (new_ring_buffer [] (pos 3)) { counter = 2 }))

crossed_page :
    query [] own 0 [] (pos 1) crossed ≡ (record { cursor = 2; event = text_of "b" } ∷ [], 2)
unfolding new_ring_buffer store start_of at_least_one build_type_set in_type_set passes query_from
    last_cursor query
crossed_page = refl

crossed_rest : query [] own 2 [] (pos 9) crossed ≡ ([], 2)
unfolding new_ring_buffer store start_of at_least_one build_type_set in_type_set passes query_from
    last_cursor query
crossed_rest = refl
