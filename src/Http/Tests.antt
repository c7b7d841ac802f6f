-- ===== src/Http/Tests.antt =====
-- The laws of the HTTP proxy at concrete inputs.
use nsproxy.Common.{
  ◌↔◌, true, ℕ, bit_or, ◌-◌, ◌<◌, ◌≡◌, refl, ◌≢◌, ◌⊎◌, none, some, List, [], ◌∷◌, ◌++◌, arith, ◌==◌,
  if◌then◌else◌, ◌===◌, length, take, All,
}
use nsproxy.Rules.Tests.{empty_conf, name_ab}
use nsproxy.Skutils.{count, bytes, epollin, epollout, evupd, skutils_evctl}
use nsproxy.Http.Base64.{base64_encode}
use nsproxy.Http.Base64.RoundTrip.{decode-base64_encode}
use nsproxy.Http.Base64.Group.{decode}
use nsproxy.Http.Handshake.{
  ProxyHttp, recv_reply, send_request, forwarding, failed, HttpCalls, http_request,
  http_handshake_input, http_epcb_events, crlf2_end, is_ok, http_1, scan_status, capacity, quiet,
  fail,
}
use nsproxy.Http.Handshake.Request.{http_request_fits}
use nsproxy.Http.Handshake.Status.{scan_status_iff}
use nsproxy.Http.Handshake.Phases.{Follows, http_events-Follows}
use nsproxy.Http.Handshake.Reply.{wanted, handshake_input-Consumes}

decode-base64_encode_example :
    (out : List ℕ) × (base64_encode 5 (1 ∷ 200 ∷ []) ≡ some out)
    × (length out ≡ 5)
    × (decode out ≡ some (1 ∷ 200 ∷ []))
decode-base64_encode_example =
    decode-base64_encode (1 ∷ 200 ∷ []) (omega arith, (omega arith, tt)) (omega arith)

abbrev fresh : ProxyHttp
fresh = record { phase = send_request; hsbuff = []; events = 4; addr = name_ab; port = 80 }

http_request_fits_example : length (http_request empty_conf fresh) < capacity
http_request_fits_example = http_request_fits empty_conf fresh (omega arith)

abbrev calls : HttpCalls
calls = record { sent = count 3; first = bytes []; taken = bytes []; ctl = λ c. 0 }

http_events-Follows_example :
    Follows send_request (http_epcb_events empty_conf calls 4 fresh).self.phase
    × (((http_epcb_events empty_conf calls 4 fresh).self.phase ≢ failed)
        ⊎ ((http_epcb_events empty_conf calls 4 fresh).user ≡ some 13))
http_events-Follows_example = http_events-Follows empty_conf calls 4 fresh

-- The end of a header in two parts, and a byte of the data behind it.
abbrev waiting : ProxyHttp
waiting = record fresh { phase = recv_reply; hsbuff = 72 ∷ 13 ∷ 10 ∷ [] }

abbrev peeked : List ℕ
peeked = 13 ∷ 10 ∷ 33 ∷ []

unseen : crlf2_end waiting.hsbuff ≡ none
unfolding crlf2_end ◌===◌
unseen = refl

clean : All (λ c. 0 < c) (waiting.hsbuff ++ peeked)
clean = (omega arith, (omega arith, (omega arith, (omega arith, (omega arith, (omega arith, tt))))))

handshake_input-Consumes_example :
    ((crlf2_end (waiting.hsbuff ++ peeked) ≡ none)
      × (wanted waiting peeked ≡ peeked)
      × (http_handshake_input (λ c. 0) (bytes peeked) (bytes (wanted waiting peeked)) waiting ≡ (
          if length (waiting.hsbuff ++ peeked) == capacity - 1
          then fail (record waiting { hsbuff = waiting.hsbuff ++ peeked })
          else quiet (record waiting { hsbuff = waiting.hsbuff ++ peeked }))))
    ⊎ ((end : ℕ) × (crlf2_end (waiting.hsbuff ++ peeked) ≡ some end)
        × (waiting.hsbuff ++ wanted waiting peeked ≡ take end (waiting.hsbuff ++ peeked))
        × (length waiting.hsbuff < end)
        × (http_handshake_input (λ c. 0) (bytes peeked) (bytes (wanted waiting peeked)) waiting ≡ (
            if is_ok (scan_status (waiting.hsbuff ++ peeked))
            then quiet (record waiting {
              hsbuff = [];
              phase = forwarding;
              events =
                  (skutils_evctl (λ c. 0) waiting.events (bit_or epollout epollin) evupd).events;
            })
            else fail (record waiting { hsbuff = take end (waiting.hsbuff ++ peeked) }))))
handshake_input-Consumes_example =
    handshake_input-Consumes (λ c. 0) peeked waiting unseen clean (omega arith)

-- The digits of a reply with status 200.
abbrev two : ℕ
two = b'2'

abbrev nought : ℕ
nought = b'0'

scan_status_iff_example :
    (is_ok (scan_status (http_1 ++ (49 ∷ 32 ∷ two ∷ nought ∷ nought ∷ 13 ∷ 10 ∷ []))) ≡ true)
    ↔ ((two ≡ 50) × ((nought ≡ 48) × (nought ≡ 48)))
scan_status_iff_example = scan_status_iff 49 two nought nought 13 (10 ∷ []) refl refl refl refl
