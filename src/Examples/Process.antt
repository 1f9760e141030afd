-- ===== src/Examples/Process.antt =====
-- The interceptor at concrete inputs.
use mu_quinet.Prelude.{
  ◌≡◌, refl, inl, inr, List, [], ◌∷◌, ◌++◌, true, false, none, some, arith, pos,
}
use mu_quinet.Mux.Rpc.{Calling, Request, RetCode, Returning, Response}
use mu_quinet.Mux.Handler.{Channel, handle_request}
use mu_quinet.Interceptor.{Interceptor, is_assigned_by_muquinet, next_avail_fd, fd2channel}
use mu_quinet.Interceptor.Recv.{ReadResult, Received, IsSkipped, channel_recv, channel_recv-got}
use mu_quinet.Interceptor.Calls.{Outcome, socket, recvfrom}
use mu_quinet.Interceptor.Fds.{IsValid}
use mu_quinet.Interceptor.Replies.{
  data_ret, socket_ok, recvfrom-handle_request, recvfrom-e_again, socket_socket,
}
use mu_quinet.Examples.Requests.{
  list_queue, list_laws, packet0, packet0-HasPayload, socket0, socket1, garbage0, stack0,
  channel_of,
}

-- Three descriptors from 4096; the first has channel 5.
abbrev pub process0 : Interceptor
process0 = record { startfd = 4096; count = 3; last_fd_assigned = 4095; vector = 5 ∷ 0 ∷ 0 ∷ [] }

process0-IsValid : IsValid process0
unfolding is_assigned_by_muquinet next_avail_fd
process0-IsValid = record { entries = refl; next = refl }

socket_socket_example :
    let e = socket process0 1 7 2 1 0 (ReadResult.message socket_ok ∷ []) in
    let e' = socket e.after 1 8 2 2 0 (ReadResult.message socket_ok ∷ []) in
    (e'.outcome ≡ e.outcome) × (fd2channel e'.after (next_avail_fd process0) ≡ some 8)
socket_socket_example = socket_socket process0 1 7 8 1 2 0 process0-IsValid (inl refl) (inr refl)

abbrev wait_answer : Response
wait_answer = record { retcode = some RetCode.wait_next; returning = Returning.not_set }

channel_recv-got_example :
    channel_recv (
      (ReadResult.eintr ∷ ReadResult.message wait_answer ∷ []) ++ ReadResult.message socket_ok ∷ [])
    ≡ Received.got socket_ok []
channel_recv-got_example =
    channel_recv-got (ReadResult.eintr ∷ ReadResult.message wait_answer ∷ []) socket_ok []
      (IsSkipped.eintr, (IsSkipped.wait_next wait_answer refl, tt)) refl

abbrev request0 : Request
request0 = record { pid = 1; calling = Calling.recvfrom_call 1 0 true }

recvfrom-handle_request_example :
    (c' : Channel (List _)) × (r : Response) × (handle_request list_queue garbage0 stack0
        (channel_of socket1)
        request0
      ≡ some (stack0, c', r))
    × (recvfrom process0 1 4096 1 0 true (ReadResult.message r ∷ []) ≡ record {
      after = process0;
      sent = (5, request0) ∷ [];
      outcome = Outcome.returned (data_ret packet0 true);
    })
unfolding is_assigned_by_muquinet fd2channel
recvfrom-handle_request_example =
    recvfrom-handle_request list_queue list_laws garbage0 process0 1 4096 5 1 0 true stack0
      (channel_of socket1) socket1 packet0 [] refl refl (omega arith) refl refl packet0-HasPayload

recvfrom-e_again_example :
    (r : Response) × (handle_request list_queue garbage0 stack0
        (channel_of (record socket0 { nonblocking = true }))
        (record { pid = 1; calling = Calling.recvfrom_call 1 0 false })
      ≡ some (stack0, channel_of (record socket0 { nonblocking = true }), r))
    × ((recvfrom process0 1 4096 1 0 false (ReadResult.message r ∷ [])).outcome
        ≡ Outcome.returned (record { ret = pos 11; errno = none; written = []; addr = none }))
unfolding is_assigned_by_muquinet fd2channel
recvfrom-e_again_example =
    recvfrom-e_again list_queue list_laws garbage0 process0 1 4096 5 1 0 stack0
      (channel_of (record socket0 { nonblocking = true })) (record socket0 { nonblocking = true })
      refl refl (omega arith) refl refl refl
