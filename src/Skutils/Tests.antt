-- ===== src/Skutils/Tests.antt =====
-- The laws of skutils_evctl() at concrete masks.
use nsproxy.Common.{◌≡◌, ◌⊎◌, none}
use nsproxy.Skutils.{skutils_evctl, evset, other, count, errno, einval}
use nsproxy.Skutils.Events.{registered, epoll_answer, after_call, Asked, evctl-registered}

evctl-registered_example :
    let r = skutils_evctl (epoll_answer (registered 1)) 1 4 evset in
    ((r.ret ≡ count 0)
      × (Asked 1 4 evset r.events × (after_call (registered 1) r.call ≡ registered r.events)))
    ⊎ ((evset ≡ other) × (r ≡ record { ret = errno einval; events = 1; call = none }))
evctl-registered_example = evctl-registered 1 4 evset
