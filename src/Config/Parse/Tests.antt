-- ===== src/Config/Parse/Tests.antt =====
-- `parse_config` (turbine/src/config/mod.rs) on the two files.
use proxy_printer.Base.{◌≡◌, refl, ◌↔◌, [], ◌∷◌, bytes_eq}
use proxy_printer.Tls.{load_certificates_from_pem, load_private_key_from_file, tls_acceptor}
use proxy_printer.Config.Parse.{
  panicked, static_backends, acceptor_of, build_upstream, build_upstreams, build_rule, build_rules,
  parse_config,
}
use proxy_printer.Config.Parse.Laws.{SomeDead, parse_config-panicked}
use proxy_printer.Config.Parse.Samples.{gone, files, rule, config, read}

parse_config-panicked_example :
    (parse_config files read gone ≡ panicked) ↔ SomeDead files (rule gone ∷ [])
parse_config-panicked_example = parse_config-panicked files read gone (config gone) refl

missing_certificate : parse_config files read gone ≡ panicked
unfolding parse_config build_rules build_rule build_upstreams build_upstream acceptor_of
    static_backends load_certificates_from_pem load_private_key_from_file tls_acceptor bytes_eq
missing_certificate = refl
