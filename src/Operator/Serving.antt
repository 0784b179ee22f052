-- ===== src/Operator/Serving.antt =====
-- cmd/main.go: what the options of the servers say for every setting of the flags.
use platform_governance_oper.Prelude.{
  ◌≡◌, ◌↔◌, true, some, List, [], ◌∷◌, arith, Bool-cases, inl, inr, if◌then◌else◌,
}
use platform_governance_oper.Operator.{
  Flags, TlsConfig, tls_opts, with_authentication_and_authorization, webhook_server_options,
  metrics_server_options, manager_options,
}

-- What a server makes of its TLS configuration: each option in turn.
abbrev pub configured : List (TlsConfig → TlsConfig) → TlsConfig → TlsConfig
configured [] c = c
configured (opt ∷ opts) c = configured opts (opt c)

-- Both servers speak HTTP/1.1 only, unless HTTP/2 was asked for, which leaves their configuration
-- as it is; and the metrics server is behind authentication and authorization exactly if it serves
-- securely. Certificates do not matter to this.
pub manager_options_lem :
    (flags : Flags) (c : TlsConfig)
    → (configured (manager_options flags).webhook_server.tls_opts c
        ≡ (if flags.enable_http2 then c else record { next_protos = "http/1.1" ∷ [] }))
      × (configured (manager_options flags).metrics.tls_opts c
          ≡ (if flags.enable_http2 then c else record { next_protos = "http/1.1" ∷ [] }))
      × (((manager_options flags).metrics.filter_provider
            ≡ some with_authentication_and_authorization)
          ↔ ((manager_options flags).metrics.secure_serving ≡ true))
unfolding manager_options webhook_server_options metrics_server_options tls_opts
manager_options_lem flags c = elim (Bool-cases flags.enable_http2) [
  | inl on ↦ (ground (arith, on), ground (arith, on), ((λ h. ground arith), (λ h. ground arith)))
  | inr off ↦ (ground (arith, off), ground (arith, off), ((λ h. ground arith), (λ h. ground arith)))
]
