-- ===== src/Destination/Ledger/Runs.antt =====
-- Concrete requests on which the ledger's theorems apply.
use otelcol_exporter_netflow.Common.{
  ℕ, ◌≡◌, refl, ap, none, some, ◌<◌, ◌≢◌, true, false, List, [], ◌∷◌, arith, inl,
}
use otelcol_exporter_netflow.Common.Int.{pos}
use otelcol_exporter_netflow.Destination.WriteClass.{classify_write}
use otelcol_exporter_netflow.Destination.Ledger.{
  SourceLedger, other, missing_field, new_source_ledger, classification, add_source_reason,
  invalidate, add_pending, resolve_packet, abort_packet, begin_packet, record_source, is_full,
  is_invalid_write, reason_index, bad_ordinal,
}
use otelcol_exporter_netflow.Destination.Ledger.Store.{
  stored_class, set_stored_class, ensure_ordinal, invalid_gap_loop, mark_loop, two_bits, put_bits,
  class_of_bits, bits_of_class, confirmed,
}
use otelcol_exporter_netflow.Destination.Ledger.Invariant.{Inv, new_source_ledger-Inv}
use otelcol_exporter_netflow.Destination.Ledger.Sources.{
  Added, add_source_reason-Added, add_source_reason_refused, Invalidated, invalidate-Invalidated,
  CanInvalidate,
}
use otelcol_exporter_netflow.Destination.Ledger.Packets.{Answered, add_pending-Answered}
use otelcol_exporter_netflow.Destination.Ledger.Resolve.{
  ResolveAnswer, resolve_packet-ResolveAnswer,
}
use otelcol_exporter_netflow.Destination.Ledger.History.{
  Call, adds, begins, pends, resolves, aborts, step, run, run-Inv, Exact, run-Exact, InOrder,
  run-InOrder,
}
use otelcol_exporter_netflow.Destination.Ledger.Lifecycle.{
  Transition, step-Transition, run-keeps_final, is_final,
}
use otelcol_exporter_netflow.Destination.Ledger.Halt.{IsHalted, SameDelivery, run-SameDelivery}
use otelcol_exporter_netflow.Destination.Ledger.Halt.Stops.{
  IsDoubtful, Doubted, doubtful-Doubted, abort_packet-SameDelivery,
}

-- Three records, the second of them invalid; the first and the third are put in a packet.
abbrev loaded : List Call
loaded =
    adds 0 true other
    ∷ adds 1 false missing_field
    ∷ adds 2 true other
    ∷ begins
    ∷ pends 0
    ∷ pends 2
    ∷ []

abbrev written : List Call
written = resolves (pos 100) (pos 100) false ∷ []

abbrev three : SourceLedger
three = run new_source_ledger loaded

three-Inv : Inv three
three-Inv = run-Inv new_source_ledger loaded new_source_ledger-Inv

abbrev sent : SourceLedger
sent = run three written

sent-Inv : Inv sent
sent-Inv = run-Inv three written three-Inv

sent_first : classification sent 0 ≡ confirmed
unfolding classification run step add_source_reason record_source begin_packet add_pending
    resolve_packet stored_class set_stored_class ensure_ordinal invalid_gap_loop mark_loop two_bits
    put_bits class_of_bits bits_of_class new_source_ledger classify_write is_full is_invalid_write
    reason_index
sent_first = refl

three_covers : 3 ≡ three.covered
unfolding run step add_source_reason record_source begin_packet add_pending stored_class
    set_stored_class ensure_ordinal invalid_gap_loop two_bits put_bits class_of_bits bits_of_class
    new_source_ledger
three_covers = refl

three_opened : three.packet_open ≡ true
unfolding run step add_source_reason record_source begin_packet add_pending stored_class
    set_stored_class ensure_ordinal invalid_gap_loop two_bits put_bits class_of_bits bits_of_class
    new_source_ledger
three_opened = refl

three_pending : 0 < three.packet_valid
unfolding run step add_source_reason record_source begin_packet add_pending stored_class
    set_stored_class ensure_ordinal invalid_gap_loop two_bits put_bits class_of_bits bits_of_class
    new_source_ledger
three_pending = omega arith

short_IsDoubtful : IsDoubtful (classify_write (pos 5) (pos 9) false)
unfolding classify_write
short_IsDoubtful = (λ e. cc, λ e. cc)

-- One record outside any packet.
abbrev loose : SourceLedger
loose = run new_source_ledger (adds 0 true other ∷ [])

loose-Inv : Inv loose
loose-Inv = run-Inv new_source_ledger (adds 0 true other ∷ []) new_source_ledger-Inv

loose_free : CanInvalidate loose 0
unfolding run step add_source_reason record_source stored_class ensure_ordinal two_bits
    class_of_bits new_source_ledger
loose_free = (omega arith, refl, refl)

abbrev halted : SourceLedger
halted = run three (aborts ∷ [])

halted-Inv : Inv halted
halted-Inv = run-Inv three (aborts ∷ []) three-Inv

halted-IsHalted : IsHalted halted
unfolding run step add_source_reason record_source begin_packet add_pending abort_packet
    stored_class set_stored_class ensure_ordinal invalid_gap_loop two_bits put_bits class_of_bits
    bits_of_class new_source_ledger
halted-IsHalted = record { no_more = refl; no_packet = refl }

run-Exact_example : Exact (run new_source_ledger loaded)
run-Exact_example = run-Exact loaded

run-InOrder_example : InOrder (run new_source_ledger loaded)
run-InOrder_example = run-InOrder loaded

step-Transition_example :
    Transition
      (classification three 2)
      (classification (step three (resolves (pos 7) (pos 9) true)) 2)
step-Transition_example = step-Transition three (resolves (pos 7) (pos 9) true) three-Inv 2

run-keeps_final_example : classification (run sent (begins ∷ aborts ∷ [])) 0 ≡ classification sent 0
run-keeps_final_example =
    run-keeps_final sent (begins ∷ aborts ∷ []) 0 sent-Inv (ap is_final sent_first)

add_source_reason-Added_example :
    let r = add_source_reason three 3 false missing_field in
    Added three 3 false missing_field r.0 × (r.1 ≡ none)
add_source_reason-Added_example =
    add_source_reason-Added three 3 false missing_field three-Inv (three_covers) (omega arith)

five_is_late : 5 ≢ three.covered
five_is_late = rw (← three_covers) (λ e. omega arith)

add_source_reason_refused_example : add_source_reason three 5 true other ≡ (three, some bad_ordinal)
add_source_reason_refused_example = add_source_reason_refused three 5 true other (inl five_is_late)

invalidate-Invalidated_example :
    let r = invalidate loose 0 other in Invalidated loose 0 other r.0 × (r.1 ≡ none)
invalidate-Invalidated_example = invalidate-Invalidated loose 0 other loose-Inv loose_free

add_pending-Answered_example : Answered three 2 (add_pending three 2)
add_pending-Answered_example = add_pending-Answered three 2 three-Inv

resolve_packet-ResolveAnswer_example :
    ResolveAnswer three
      (classify_write (pos 5) (pos 5) false)
      (resolve_packet three (pos 5) (pos 5) false)
resolve_packet-ResolveAnswer_example =
    resolve_packet-ResolveAnswer three (pos 5) (pos 5) false three-Inv

run-SameDelivery_example : SameDelivery halted (run halted (begins ∷ adds 3 true other ∷ []))
run-SameDelivery_example =
    run-SameDelivery halted (begins ∷ adds 3 true other ∷ []) halted-IsHalted halted-Inv

doubtful-Doubted_example :
    Doubted three (run (resolve_packet three (pos 5) (pos 9) false).0 (begins ∷ pends 0 ∷ []))
doubtful-Doubted_example =
    doubtful-Doubted three (pos 5) (pos 9) false (begins ∷ pends 0 ∷ []) three-Inv three_opened
      three_pending short_IsDoubtful

abort_packet-SameDelivery_example :
    let l' = (abort_packet three).0 in
    ((o : ℕ) → classification l' o ≡ classification three o)
    × SameDelivery three (run l' (begins ∷ []))
abort_packet-SameDelivery_example =
    abort_packet-SameDelivery three (begins ∷ []) three-Inv three_opened
