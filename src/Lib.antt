-- ===== src/Lib.antt =====
-- A model of nsproxy, which runs a program in a network namespace whose traffic goes through a SOCKS5
-- or HTTP proxy. A tun device feeds an lwIP stack (src/core.c). For each new connection the core picks
-- a route by the rules of the user, and forwards the data between lwIP and a proxy object. The
-- SOCKS5 client is src/socks.c, the HTTP client src/http.c, and both register their sockets with epoll
-- by src/skutils.c. The rules come from the options and files that src/main.c reads; more are learnt
-- from the DNS answers that pass through the core.
--
-- Common: shared notation, list functions over the native numbers, Boolean tests, and their lemmas.
-- Rules: the routing rules. Rules.Conf is src/common.h, Rules.Text, Rules.Domains and Rules.Capacity
--   are trim_ascii_space(), normalize_domain(), nspconf_add_direct_domain(), nspconf_domain_matches()
--   and next_capacity() of src/main.c, Rules.Cidr and Rules.Target are nspconf_add_direct_cidr_raw()
--   of src/main.c with cidr_match_bytes() and is_direct_cidr_target() of src/core.c.
-- Dns: the DNS reader of src/core.c. Dns.Name is dns_read_name(), Dns.Response is
--   nsproxy_log_dns_queries() and dns_response_add_direct_cidrs().
-- Skutils: skutils_evctl(), skutils_send() and skutils_recv() of src/skutils.c.
-- Socks: src/socks.c. Socks.Codec is the messages, Socks.Handshake the handshake,
--   Socks.Datagram is socks_send() and socks_recv().
-- Http: src/http.c. Http.Base64 is base64_encode(), Http.Handshake the handshake.
-- Core: the forwarding of src/core.c. Core.Route is the choice of a route in core_tcp_new() and
--   core_udp_new(). Core.Udp is udp_lwip_received(), udp_proxy_output() and udp_proxy_input().
--   Core.Assoc is the UDP association with the list of UDP forwards: core_udp_new(),
--   core_start_udp_assoc(), udp_assoc_io_event(), core_gc_tmr() and core_reassoc_tmr(). Core.Tcp is
--   tcp_proxy_output(), tcp_proxy_input(), the callbacks of lwIP and tcp_forward_destroy().
--   Core.Events is tcp_proxy_io_event() and udp_proxy_io_event(), which are made of these;
--   Core.Forwards is core_tcp_new(), and core_gc_tmr() for both lists.
-- Tcpdns: src/tcpdns.c, a master with a worker for each query, whose TCP connection is a proxy object.
-- Links: the doubly linked lists of src/core.c and src/tcpdns.c, as a store of links. The other modules
--   see these lists as lists.
-- Options: main() of src/main.c up to the configuration. Options.Cidr is add_direct_cidr() and
--   parse_direct_cidrs(), Options.Files is load_direct_cidrs_file() and load_direct_domains_file(),
--   Options.Auth and Options.Dns are the options -a and -d, Options.Main is the loop over the
--   options, Options.Finish what follows it.
-- The modules named Tests apply the laws at concrete inputs.
--
-- A handler is a function from the state and from what the system calls return to the new state and
-- the events that it passes on. inet_pton() and inet_ntop() are a record of functions with the
-- sizes of their results. A read behind a message is a value of its own in the DNS reader. pbuf
-- chains are a record of operations with the laws that the code relies on. Fuel stands where the
-- source bounds its loop itself: the 128 rounds of dns_read_name(), the counts of a DNS header, and
-- the loop of next_capacity(), for which the rounds are shown to be enough. The loops of the
-- forwarding run until a call says stop; their theorems name the fuel that is enough. The loop over
-- the lines of a rule file takes one unit of fuel more than the file has bytes, which is shown to be
-- enough. Of the C library, the functions on strings that the options use are written out.
--
-- Not modelled: logging, system calls as such, and the vendored lwIP stack; the set-up of the
-- namespaces; the event loop, which only calls what is registered; and the life cycle of the proxy
-- objects, so that a model says whether an object has its proxy and not how the proxy is counted.
pub mod Common
pub mod Rules
pub mod Dns
pub mod Skutils
pub mod Socks
pub mod Http
pub mod Core
pub mod Tcpdns
pub mod Options
pub mod Links
