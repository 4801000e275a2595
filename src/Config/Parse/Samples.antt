-- ===== src/Config/Parse/Samples.antt =====
-- Two small files for the tests of turbine/src/config and of what stands on it: in the second the
-- certificate of the only upstream is missing.
use proxy_printer.Base.{◌≡◌, refl, false, [], ◌∷◌, Option, some, none, bytes_eq, if◌then◌else◌}
use proxy_printer.Net.{v4}
use proxy_printer.Tls.{
  Library, FilePath, load_certificates_from_pem, load_private_key_from_file, tls_acceptor,
}
use proxy_printer.Config.{any, UpstreamConfig, RuleConfig, Config, round_robin, static, tcp}
use proxy_printer.Config.Parse.{
  parsed, error, panicked, static_backends, acceptor_of, build_upstream, build_upstreams,
  build_rule, build_rules, parse_config, Rules,
}

-- Every file but `gone` is there, with one certificate and a key.
abbrev pub gone : FilePath
gone = b'g' ∷ []

abbrev pub files : Library
files = record {
  File = Unit;
  Certificate = Unit;
  PrivateKey = Unit;
  Identity = Unit;
  open_file = λ p. if bytes_eq p gone then none else some tt;
  certs = λ f. some tt ∷ none ∷ [];
  private_key = λ f. some (some tt);
  with_single_cert = λ cs k. some tt;
}

abbrev pub upstream : FilePath → UpstreamConfig Unit
upstream certificate = record {
  name = b'u' ∷ [];
  backends = static (record { head = record { addr = v4 1 80 }; tail = [] });
  load_balancing = round_robin;
  proxy_protocol = false;
  match = any;
  cnx_max_duration = 60;
  connect_timeout = 5;
  tls = some (record { certificate = certificate; private_key = b'k' ∷ []; alpns = [] });
}

abbrev pub rule : FilePath → RuleConfig Unit
rule certificate = record {
  protocol = tcp;
  listen_addr = record { head = v4 0 443; tail = v4 0 444 ∷ [] };
  upstreams = record { head = upstream certificate; tail = [] };
}

-- The file `gone` is the second configuration, every other path the first.
abbrev pub config : FilePath → Config Unit
config certificate = record { rules = rule certificate ∷ [] }

abbrev pub read : FilePath → Option (Config Unit)
read path = some (config path)

abbrev pub good : Rules Unit files
good = elim (parse_config files read []) [ parsed t ↦ t | error ↦ [] | panicked ↦ [] ]

pub is_parsed : parse_config files read [] ≡ parsed good
unfolding parse_config build_rules build_rule build_upstreams build_upstream acceptor_of
    static_backends load_certificates_from_pem load_private_key_from_file tls_acceptor bytes_eq
is_parsed = refl
