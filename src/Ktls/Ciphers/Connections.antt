-- ===== src/Ktls/Ciphers/Connections.antt =====
-- ktls/src/lib.rs, `CompatibleCiphers::new`: a listener of its own, six connections to it, and the probes
-- on them. Each accepted end is kept open until the probes are done, by a loop that never ends.
use proxy_printer.Base.{
  ℕ, zero, suc, ◌+◌, ◌≡◌, refl, sym, ap, ◌∙◌, ◌⊎◌, inl, inr, false, List, [], ◌∷◌, ◌==◌,
  if◌then◌else◌, length, arith,
}
use proxy_printer.Net.{SocketAddr}
use proxy_printer.Ktls.Io.{IoError}
use proxy_printer.Ktls.Rustls.{SupportedCipherSuite, Bindings, Suites}
use proxy_printer.Ktls.Results.{Result, ok, err, Outcome, panics}
use proxy_printer.Ktls.Ffi.{Kernel}
use proxy_printer.Ktls.Ciphers.{CompatibleCiphers, CompatibleCiphersForVersion, test_ciphers}
use proxy_printer.Ktls.Ciphers.Probes.{Tells, test_ciphers-Tells}

-- What the system answers to `TcpListener::bind("0.0.0.0:0")`, to `local_addr`, and to each of the
-- `TcpStream::connect`, by its number.
pub record Loopback (Io : Type 0) : Type 0 where
  pub bind : Result IoError (Unit {0})
  pub local_addr : Result IoError SocketAddr
  pub connect : SocketAddr → ℕ → Result IoError Io

module _ {Io : Type 0} where
  abbrev pub all_ok : List Io → List (Result IoError Io)
  all_ok [] = []
  all_ok (io ∷ ios) = ok io ∷ all_ok ios

  abbrev pub HasErr : IoError → List (Result IoError Io) → Type 0
  HasErr e [] = ⊥
  HasErr e (r ∷ rs) = (r ≡ err e) ⊎ HasErr e rs

  -- All of the values in their order, or the error of one.
  abbrev pub IsJoined : List (Result IoError Io) → Result IoError (List Io) → Type 0
  IsJoined rs (ok ios) = rs ≡ all_ok ios
  IsJoined rs (err e) = HasErr e rs

-- `futures_util::future::try_join_all`, by the results of its futures.
pub record TryJoinAll (Io : Type 0) : Type 0 where
  pub try_join_all : List (Result IoError Io) → Result IoError (List Io)
  pub joins : (rs : List (Result IoError Io)) → IsJoined rs (try_join_all rs)

-- `CompatibleCiphers::default()`.
abbrev pub default : CompatibleCiphers
default =
    let none_yet : CompatibleCiphersForVersion = record {
      aes_gcm_128 = false;
      aes_gcm_256 = false;
      chacha20_poly1305 = false;
    } in
    record { tls12 = none_yet; tls13 = none_yet }

-- `Self::CIPHERS_COUNT`.
abbrev pub ciphers_count : ℕ
ciphers_count = 6

module _ {Io : Type 0} (b : Bindings) (kernel : Kernel Io) (su : Suites) (net : Loopback Io)
    (futures : TryJoinAll Io) where
  open net use {bind, local_addr, connect}
  open futures use {try_join_all, joins}

  -- `(from..from + n).map(|_| TcpStream::connect(local_addr))`.
  abbrev pub connects : SocketAddr → ℕ → ℕ → List (Result IoError Io)
  connects addr from zero = []
  connects addr from (suc n) = connect addr from ∷ connects addr (from + 1) n

  -- `(&*socks).try_into().unwrap()`, and the probes.
  abbrev probe_all : List Io → Outcome CompatibleCiphers
  probe_all ios =
      if length ios == ciphers_count then test_ciphers b kernel su default ios else panics

  abbrev joined_sockets : Result IoError (List Io) → Result IoError (Outcome CompatibleCiphers)
  joined_sockets (err e) = err e
  joined_sockets (ok ios) = ok (probe_all ios)

  abbrev with_addr : Result IoError SocketAddr → Result IoError (Outcome CompatibleCiphers)
  with_addr (err e) = err e
  with_addr (ok addr) = joined_sockets (try_join_all (connects addr 0 ciphers_count))

  abbrev with_listener : Result IoError (Unit {0}) → Result IoError (Outcome CompatibleCiphers)
  with_listener (err e) = err e
  with_listener (ok u) = with_addr local_addr

  -- An error is one of these calls; else the probes have been made.
  pub new : Result IoError (Outcome CompatibleCiphers)
  new = with_listener bind

  -- The six connections were made, and the flags tell what the kernel took on them.
  pub record Probed (o : Outcome CompatibleCiphers) : Type 0 where
    pub addr : SocketAddr
    pub listens : local_addr ≡ ok addr
    pub s0 : Io
    pub s1 : Io
    pub s2 : Io
    pub s3 : Io
    pub s4 : Io
    pub s5 : Io
    pub connected : connects addr 0 6 ≡ all_ok (s0 ∷ s1 ∷ s2 ∷ s3 ∷ s4 ∷ s5 ∷ [])
    pub tells : (suite : SupportedCipherSuite) → Tells b kernel su s0 s1 s2 s3 s4 s5 o suite

  abbrev pub IsNew : Result IoError (Outcome CompatibleCiphers) → Type 0
  IsNew (err e) =
      (bind ≡ err e)
      ⊎ (local_addr ≡ err e)
      ⊎ ((addr : SocketAddr) × (local_addr ≡ ok addr) × HasErr e (connects addr 0 6))
  IsNew (ok o) = Probed o

  length-all_ok : (ios : List Io) → length (all_ok ios) ≡ length ios
  length-all_ok [] = refl
  length-all_ok (io ∷ ios) = ap suc (length-all_ok ios)

  probe_all-Probed :
      (addr : SocketAddr) (ios : List Io)
      → local_addr ≡ ok addr
      → connects addr 0 6 ≡ all_ok ios
      → length ios ≡ 6
      → Probed (probe_all ios)
  probe_all-Probed addr (s0 ∷ s1 ∷ s2 ∷ s3 ∷ s4 ∷ s5 ∷ []) l c e = record {
    addr = addr;
    listens = l;
    s0 = s0;
    s1 = s1;
    s2 = s2;
    s3 = s3;
    s4 = s4;
    s5 = s5;
    connected = c;
    tells = test_ciphers-Tells b kernel su s0 s1 s2 s3 s4 s5 default;
  }
  probe_all-Probed addr [] l c e = absurd (omega arith)
  probe_all-Probed addr (s0 ∷ []) l c e = absurd (omega arith)
  probe_all-Probed addr (s0 ∷ s1 ∷ []) l c e = absurd (omega arith)
  probe_all-Probed addr (s0 ∷ s1 ∷ s2 ∷ []) l c e = absurd (omega arith)
  probe_all-Probed addr (s0 ∷ s1 ∷ s2 ∷ s3 ∷ []) l c e = absurd (omega arith)
  probe_all-Probed addr (s0 ∷ s1 ∷ s2 ∷ s3 ∷ s4 ∷ []) l c e = absurd (omega arith)
  probe_all-Probed addr (s0 ∷ s1 ∷ s2 ∷ s3 ∷ s4 ∷ s5 ∷ s6 ∷ ios) l c e = absurd (omega arith)

  joined_sockets-IsNew :
      (addr : SocketAddr) (r : Result IoError (List Io))
      → local_addr ≡ ok addr
      → IsJoined (connects addr 0 ciphers_count) r
      → IsNew (joined_sockets r)
  joined_sockets-IsNew addr (err e) l j = inr (inr (addr, l, j))
  joined_sockets-IsNew addr (ok ios) l j =
      probe_all-Probed addr ios l j (sym (length-all_ok ios) ∙ ap length (sym j))

  with_addr-IsNew : (r : Result IoError SocketAddr) → local_addr ≡ r → IsNew (with_addr r)
  with_addr-IsNew (err e) l = inr (inl l)
  with_addr-IsNew (ok addr) l = joined_sockets-IsNew addr _ l (joins _)

  with_listener-IsNew : (r : Result IoError (Unit {0})) → bind ≡ r → IsNew (with_listener r)
  with_listener-IsNew (err e) h = inl h
  with_listener-IsNew (ok u) h = with_addr-IsNew local_addr refl

  -- It does not panic. Where it gives flags it has made six connections to its own listener, and a
  -- suite counts as compatible exactly if the kernel took, on the connection of its version and bulk
  -- algorithm, the upper level protocol and then the sending structure of the suite named for them. An
  -- error that it gives is that of the listener, of its address, or of one of the six connections.
  pub new-IsNew : IsNew new
  unfolding new
  new-IsNew = with_listener-IsNew bind refl
