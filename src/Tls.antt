-- ===== src/Tls.antt =====
-- turbine/src/tls.rs: certificates, keys and acceptors. Files, PEM and the check of a certificate
-- against its key belong to std, rustls_pemfile and rustls: they are parameters. An error is `none`;
-- its text is not modelled.
use proxy_printer.Base.{ℕ, Bool, true, List, [], ◌∷◌, Option, some, none}

-- `std::path::Path`, by its bytes.
abbrev pub FilePath : Type 0
FilePath = List ℕ

-- An error anywhere ends the chain.
infixl 5 ◌>>=◌
abbrev pub ◌>>=◌ : {A B : Type 0} → Option A → (A → Option B) → Option B
none >>= f = none
some a >>= f = f a

pub record Library : Type 1 where
  pub File : Type 0
  pub Certificate : Type 0
  pub PrivateKey : Type 0
  pub Identity : Type 0
  -- `File::open`.
  pub open_file : FilePath → Option File
  -- `rustls_pemfile::certs`: an entry of the file that cannot be read is none.
  pub certs : File → List (Option Certificate)
  -- `rustls_pemfile::private_key`: an error, or the key if there is one.
  pub private_key : File → Option (Option PrivateKey)
  -- `with_single_cert`.
  pub with_single_cert : List Certificate → PrivateKey → Option Identity

-- The `ServerConfig` of a `TlsAcceptor`, by what turbine sets.
pub record Acceptor (Identity : Type 0) : Type 0 where
  pub identity : Identity
  pub alpn_protocols : List (List ℕ)
  pub enable_secret_extraction : Bool
  pub send_tls13_tickets : ℕ

-- The readable entries.
readable : {A : Type 0} → List (Option A) → List A
readable [] = []
readable (some a ∷ rest) = a ∷ readable rest
readable (none ∷ rest) = readable rest

module _ (lib : Library) where
  open lib use {
    File, Certificate, PrivateKey, Identity, open_file, certs, private_key, with_single_cert,
  }

  unfoldable pub load_certificates_from_pem : FilePath → Option (List Certificate)
  unfolding readable
  load_certificates_from_pem path = do file ← open_file path; some (readable (certs file))

  unfoldable pub load_private_key_from_file : FilePath → Option PrivateKey
  load_private_key_from_file path = do file ← open_file path; found ← private_key file; found

  unfoldable pub tls_acceptor :
      List Certificate → PrivateKey → Option (List (List ℕ)) → Option (Acceptor Identity)
  tls_acceptor certificate key alpn = do
    identity ← with_single_cert certificate key
    some (record {
      identity = identity;
      alpn_protocols = elim alpn [ none ↦ [] | some names ↦ names ];
      enable_secret_extraction = true;
      send_tls13_tickets = 0;
    })
