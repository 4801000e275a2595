-- ===== src/Client/Names.antt =====
-- What `handle_client` (turbine/src/main.rs) matches a client by.
use proxy_printer.Base.{
  ℕ, ◌≡◌, refl, ◌⊎◌, inl, inr, Bool, true, false, List, Option, none, some, Option-cases,
}
use proxy_printer.Net.{SocketAddr, v4}
use proxy_printer.Config.{Protocol, tcp, tls}
use proxy_printer.Match.{MatchContext, new}
use proxy_printer.Client.Action.{Failure, returned, ensure}
use proxy_printer.Client.Hello.{
  MessagePayload, handshake, hello, other_handshake, other_message, Messages, client_hello_of,
  hostname, extract_tls_info,
}
use proxy_printer.Client.Handle.{World, match_context}
use proxy_printer.Client.Effects.{>>=-eq-returned}
use proxy_printer.Client.Preface.{or_fail-eq-returned}

ensure-eq-returned :
    (e : Failure) (b : Bool) {u : Unit {0}} → (ensure e b).0 ≡ returned u → b ≡ true
unfolding ensure
ensure-eq-returned e true h = refl
ensure-eq-returned e false h = cc

client_hello_of-eq-some :
    (m : Messages) (p : MessagePayload m.Hello) {h : m.Hello}
    → client_hello_of m p ≡ some h
    → p ≡ handshake (hello h)
client_hello_of-eq-some m (handshake (hello g)) e = cc
client_hello_of-eq-some m (handshake other_handshake) e = cc
client_hello_of-eq-some m other_message e = cc

module _ {Regex Acceptor : Type 0} (world : World Regex Acceptor) where
  open world use {client, messages, local_addr}
  open messages use {
    Deframer, OpaqueMessage, Hello, ServerNames, deframe, pop, try_from, get_sni_extension,
    get_single_hostname, get_alpn_extension,
  }

  -- The first message that the client's socket shows is this ClientHello.
  pub record Says (h : Hello) : Type 0 where
    pub deframer : Deframer
    pub opaque : OpaqueMessage
    pub readable : client.readable ≡ true
    pub framed : deframe client.peek ≡ some deframer
    pub popped : pop deframer ≡ some (some opaque)
    pub payload : try_from opaque ≡ some (handshake (hello h))

  -- The single name of its SNI extension; without the extension there is none.
  abbrev pub IsServerName : Hello → Option (List ℕ) → Type 0
  IsServerName h name =
      ((get_sni_extension h ≡ none) × (name ≡ none))
      ⊎ ((names : ServerNames) × (get_sni_extension h ≡ some names)
          × (name ≡ get_single_hostname names))

  -- The address that the client came to, or 0.0.0.0:0 where it cannot be read.
  abbrev pub IsDestination : SocketAddr → Type 0
  IsDestination a = (local_addr ≡ some a) ⊎ ((local_addr ≡ none) × (a ≡ v4 0 0))

  -- For TLS the names of the first message and the address that the client came to, otherwise only
  -- the address.
  abbrev pub IsContext : Protocol → MatchContext → Type 0
  IsContext tcp c = (c.server_name ≡ none) × (c.alpns ≡ none) × IsDestination c.destination
  IsContext tls c =
      (h : Hello) × Says h
      × IsServerName h c.server_name
      × (c.alpns ≡ get_alpn_extension h)
      × IsDestination c.destination

  hostname-IsServerName : (h : Hello) → IsServerName h (hostname messages h)
  hostname-IsServerName h = elim (Option-cases (get_sni_extension h)) [
    | inl e ↦ inl (e, rw (e, hostname) refl)
    | inr (names, e) ↦ inr (names, e, rw (e, hostname) refl)
  ]

  new-IsDestination :
      (name : Option (List ℕ)) (alpns : Option (List (List ℕ)))
      → IsDestination (new local_addr name alpns).destination
  unfolding new
  new-IsDestination name alpns = elim (Option-cases local_addr) [
    | inl e ↦ inr (e, rw e refl)
    | inr (a, e) ↦ inl (rw e refl)
  ]

  extract_tls_info-Says :
      (info : Option (List ℕ) × Option (List (List ℕ)))
      → (extract_tls_info messages client).0 ≡ returned info
      → (h : Hello) × Says h × (info ≡ (hostname messages h, get_alpn_extension h))
  unfolding extract_tls_info
  extract_tls_info-Says info e =
      let (u, waited, e1) = >>=-eq-returned _ _ e in
      let (d, framed, e2) = >>=-eq-returned _ _ e1 in
      let (o, popped, e3) = >>=-eq-returned _ _ e2 in
      let (m, there, e4) = >>=-eq-returned _ _ e3 in
      let (p, read, e5) = >>=-eq-returned _ _ e4 in
      let (h, is_hello, e6) = >>=-eq-returned _ _ e5 in
      let some_there = or_fail-eq-returned _ o there in
      let some_hello = client_hello_of-eq-some messages p (or_fail-eq-returned _ _ is_hello) in
      (
        h,
        record {
          deframer = d;
          opaque = m;
          readable = ensure-eq-returned _ _ waited;
          framed = or_fail-eq-returned _ _ framed;
          popped = rw some_there at (or_fail-eq-returned _ _ popped);
          payload = rw some_hello at (or_fail-eq-returned _ _ read);
        },
        cc,
      )

  pub match_context-IsContext :
      (p : Protocol) (c : MatchContext) → (match_context world p).0 ≡ returned c → IsContext p c
  unfolding match_context
  match_context-IsContext tcp c e =
      let made : c ≡ new local_addr none none = cc in
      rw made (unfold new in refl, unfold new in refl, new-IsDestination none none)
  match_context-IsContext tls c e =
      let (info, f, g) = >>=-eq-returned (extract_tls_info messages client) _ e in
      let (h, says, names) = extract_tls_info-Says info f in
      let made : c ≡ new local_addr (hostname messages h) (get_alpn_extension h) = cc in
      (
        h,
        says,
        rw made (unfold new in hostname-IsServerName h),
        rw made (unfold new in refl),
        rw made (new-IsDestination (hostname messages h) (get_alpn_extension h)),
      )
