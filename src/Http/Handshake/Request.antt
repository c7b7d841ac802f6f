-- ===== src/Http/Handshake/Request.antt =====
-- The size of the request of src/http.c.
use nsproxy.Common.{
  ℕ, zero, suc, ◌+◌, ◌-◌, ◌*◌, ◌/◌, ◌%◌, ◌^◌, ◌≤◌, ◌<◌, ◌≡◌, refl, some, List, [], ◌∷◌, ◌++◌, arith,
  ltb, ◌==◌, if_cases, ltb-false, length, length-append, length-take,
}
use nsproxy.Rules.Conf.{NspConf}
use nsproxy.Http.Base64.{base64_loop, base64_encode}
use nsproxy.Http.Base64.RoundTrip.{loop_size}
use nsproxy.Socks.Codec.{c_string}
use nsproxy.Http.Handshake.{
  ProxyHttp, capacity, decimal, host_port, has_colon, credentials, authorization, request_lines,
  http_request, connect, version_line, host_name, crlf, basic,
}

decimal_size : (fuel n : ℕ) → length (decimal fuel n) ≤ fuel
decimal_size zero n = omega arith
decimal_size (suc fuel) n =
    if_cases (λ s. length s ≤ suc fuel) (ltb n 10) ((48 + n) ∷ [])
      (decimal fuel (n / 10) ++ ((48 + n % 10) ∷ [])) (λ _. omega arith)
      (λ _. omega (
        arith,
        length-append (decimal fuel (n / 10)) ((48 + n % 10) ∷ []),
        decimal_size fuel (n / 10),
      ))

c_string_size : (s : List ℕ) → length (c_string s) ≤ length s
unfolding c_string
c_string_size [] = omega arith
c_string_size (c ∷ s) =
    if_cases (λ t. length t ≤ suc (length s)) (c == 0) [] (c ∷ c_string s) (λ _. omega arith)
      (λ _. omega (arith, c_string_size s))

host_port_size : (self : ProxyHttp) → length (host_port self) ≤ length self.addr + 8
unfolding host_port
host_port_size self =
    let d = decimal_size 5 self.port in
    if_cases (λ s. length s ≤ length self.addr + 8) (has_colon self.addr)
      (91 ∷ (self.addr ++ (93 ∷ 58 ∷ decimal 5 self.port)))
      (self.addr ++ (58 ∷ decimal 5 self.port))
      (λ _. omega (arith, length-append self.addr (93 ∷ 58 ∷ decimal 5 self.port), d))
      (λ _. omega (arith, length-append self.addr (58 ∷ decimal 5 self.port), d))

encoded : (s : List ℕ) → length s ≤ 511 → base64_encode 685 s ≡ some (base64_loop s)
unfolding base64_encode
encoded s h =
    rw
      (
        ltb-false ((2 ^ 64 - 2) / 4 * 3) (length s) (omega arith),
        ltb-false 685 ((length s + 2) / 3 * 4 + 1) (omega arith),
      )
      refl

authorization_size : (conf : NspConf) → length (authorization conf) ≤ 685
unfolding authorization
authorization_size conf =
    rw
      (
        encoded (credentials conf)
            (omega (arith, length-take 511 (conf.proxyuser ++ (58 ∷ conf.proxypass)))),
        authorization,
      )
      (omega (
        arith,
        c_string_size (base64_loop (credentials conf)),
        loop_size (credentials conf),
        length-take 511 (conf.proxyuser ++ (58 ∷ conf.proxypass)),
      ))

request_lines_size : (self : ProxyHttp) → length (request_lines self) ≤ 2 * length self.addr + 43
unfolding request_lines
request_lines_size self = omega (
  arith,
  length-append connect
      (host_port self ++ (version_line ++ (host_name ++ (host_port self ++ crlf)))),
  length-append (host_port self) (version_line ++ (host_name ++ (host_port self ++ crlf))),
  length-append version_line (host_name ++ (host_port self ++ crlf)),
  length-append host_name (host_port self ++ crlf),
  length-append (host_port self) crlf,
  host_port_size self,
)

-- The request and its NUL fit in the buffer, so that snprintf() does not cut it and its result is the
-- number of bytes in use: the address has at most 255 bytes, which http_tcp_create() checks.
pub http_request_fits :
    (conf : NspConf) (self : ProxyHttp)
    → length self.addr ≤ 255
    → length (http_request conf self) < capacity
unfolding http_request
http_request_fits conf self h =
    let l = request_lines_size self in
    if_cases (λ s. length s < capacity) (length conf.proxyuser == 0) (request_lines self ++ crlf)
      (request_lines self ++ (basic ++ (authorization conf ++ (crlf ++ crlf))))
      (λ _. omega (arith, l, length-append (request_lines self) crlf))
      (λ _. omega (
        arith,
        l,
        length-append (request_lines self) (basic ++ (authorization conf ++ (crlf ++ crlf))),
        length-append basic (authorization conf ++ (crlf ++ crlf)),
        length-append (authorization conf) (crlf ++ crlf),
        authorization_size conf,
      ))
