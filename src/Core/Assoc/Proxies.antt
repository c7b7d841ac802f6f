-- ===== src/Core/Assoc/Proxies.antt =====
-- What an event of the proxy of a UDP forward leaves alone: udp_proxy_io_event() of src/core.c.
use nsproxy.Common.{
  ℕ, ◌≡◌, refl, sym, ap, ◌∙◌, not, ◌&&◌, Option, none, some, List, [], ◌∷◌, ◌==◌, if_cases,
}
use nsproxy.Rules.Conf.{NspConf}
use nsproxy.Skutils.{eagain, Ret, Recv, bytes, failure, epollin, epollout}
use nsproxy.Dns.Response.Effect.{dns_response-Extends}
use nsproxy.Core.Udp.{
  UdpForward, UdpSend, sent, full, refused, UdpInput, passed_more, learn, udp_input_loop,
  udp_proxy_input,
}
use nsproxy.Core.Events.{has, UdpIo, udp_after_input, udp_and_then, udp_proxy_io_event}
use nsproxy.Core.Assoc.Valid.{output_proxy}

learn-proxytype :
    (conf : NspConf) (fwd : UdpForward) (p : List ℕ) → (learn conf fwd p).proxytype ≡ conf.proxytype
learn-proxytype conf fwd p =
    if_cases (λ (d : NspConf). d.proxytype ≡ conf.proxytype) (fwd.local_port == 53) _ _
      (λ _. ap (λ (d : NspConf). d.proxytype) (dns_response-Extends conf p).same) (λ _. refl)

-- The input keeps the kind of the proxy, and whether the forward has one.
abbrev Keeps : NspConf → UdpForward → Option UdpInput → Type 0
Keeps c f none = Unit {0}
Keeps c f (some i) = (i.conf.proxytype ≡ c.proxytype) × (i.turn.fwd.proxy ≡ f.proxy)

more-Keeps :
    (c d : NspConf) (f : UdpForward) (p : List ℕ) (o : Option UdpInput)
    → d.proxytype ≡ c.proxytype
    → Keeps d f o
    → Keeps c f (passed_more p o)
more-Keeps c d f p none e k = tt
more-Keeps c d f p (some i) e k = (k.0 ∙ e, k.1)

loop-Keeps :
    (conf : NspConf) (fwd : UdpForward) (arrivals : List (Recv × UdpSend))
    → Keeps conf fwd (udp_input_loop conf fwd arrivals)
unfolding udp_input_loop
loop-Keeps conf fwd [] = tt
loop-Keeps conf fwd ((failure e, a) ∷ rest) =
    if_cases (Keeps conf fwd) (e == eagain) _ _ (λ _. (refl, refl)) (λ _. (refl, refl))
loop-Keeps conf fwd ((bytes p, refused) ∷ rest) = (learn-proxytype conf fwd p, refl)
loop-Keeps conf fwd ((bytes p, sent) ∷ rest) =
    more-Keeps conf (learn conf fwd p) fwd p _ (learn-proxytype conf fwd p)
      (loop-Keeps (learn conf fwd p) fwd rest)
loop-Keeps conf fwd ((bytes p, full) ∷ rest) =
    more-Keeps conf (learn conf fwd p) fwd p _ (learn-proxytype conf fwd p)
      (loop-Keeps (learn conf fwd p) fwd rest)

input-Keeps :
    (conf : NspConf) (fwd : UdpForward) (arrivals : List (Recv × UdpSend))
    → Keeps conf fwd (udp_proxy_input conf fwd arrivals)
unfolding udp_proxy_input
input-Keeps conf fwd arrivals = loop-Keeps conf _ arrivals

abbrev IoKeeps : NspConf → UdpForward → Option UdpIo → Type 0
IoKeeps c f none = Unit {0}
IoKeeps c f (some io) = (io.conf.proxytype ≡ c.proxytype) × (io.fwd.proxy ≡ f.proxy)

after-IoKeeps :
    (c : NspConf) (f : UdpForward) (send : ℕ → List ℕ → Ret) (events : ℕ) (o : Option UdpInput)
    → Keeps c f o
    → IoKeeps c f (udp_and_then o (udp_after_input send events))
after-IoKeeps c f send events none k = tt
after-IoKeeps c f send events (some i) k =
    if_cases (λ io. IoKeeps c f (some io)) (not i.turn.destroyed && has events epollout) _ _
      (λ _. (k.0, output_proxy send i.turn.fwd ∙ k.1)) (λ _. k)

event-IoKeeps :
    (conf : NspConf) (send : ℕ → List ℕ → Ret) (events : ℕ) (fwd : UdpForward)
    (arrivals : List (Recv × UdpSend))
    → IoKeeps conf fwd (udp_proxy_io_event conf send events fwd arrivals)
unfolding udp_proxy_io_event
event-IoKeeps conf send events fwd arrivals = after-IoKeeps conf fwd send events _ (
    if_cases (Keeps conf fwd) (has events epollin) _ _ (λ _. input-Keeps conf fwd arrivals)
      (λ _. (refl, refl)))

abbrev io_or : UdpIo → Option UdpIo → UdpIo
io_or d none = d
io_or d (some io) = io

-- An event keeps the kind of the proxy, and whether the forward has one.
pub io_event-proxy :
    (conf : NspConf) (send : ℕ → List ℕ → Ret) (events : ℕ) (fwd : UdpForward)
    (arrivals : List (Recv × UdpSend)) (io : UdpIo)
    → udp_proxy_io_event conf send events fwd arrivals ≡ some io
    → (io.conf.proxytype ≡ conf.proxytype) × (io.fwd.proxy ≡ fwd.proxy)
io_event-proxy conf send events fwd arrivals io e =
    from (udp_proxy_io_event conf send events fwd arrivals) e
      (event-IoKeeps conf send events fwd arrivals)
  where
    from : (o : Option UdpIo) → o ≡ some io → IoKeeps conf fwd o → IoKeeps conf fwd (some io)
    from none e k = absurd (cc (e))
    from (some j) e k =
        let same : j ≡ io = ap (io_or j) e in
        (
          ap (λ (x : UdpIo). x.conf.proxytype) (sym same) ∙ k.0,
          ap (λ (x : UdpIo). x.fwd.proxy) (sym same) ∙ k.1,
        )
