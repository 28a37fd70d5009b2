-- ===== src/SshAgent/Tests.antt =====
-- An example of a request to sign that nobody answers.
use secrets_dispatcher.Prelude.{◌≡◌, ◌⊎◌, false, some, [], ◌∷◌}
use secrets_dispatcher.Approval.Types.{Error}
use secrets_dispatcher.Proxy.Upstream.{answered}
use secrets_dispatcher.Proxy.World.{authorize}
use secrets_dispatcher.Proxy.Gate.{Grounds}
use secrets_dispatcher.Proxy.Tests.Forwarding.{world, peer}
use secrets_dispatcher.SshAgent.{Digests, ProxyAgent, sign_with_approval}
use secrets_dispatcher.SshAgent.Gate.{AsksToSign, Denied, Passed, sign_gated}
use secrets_dispatcher.Approval.Manager.Require.{Ask}

abbrev digests : Digests
digests = record { sha256 = λ blob. "h"; fingerprint = λ blob. "SHA256:h" }

abbrev agent : ProxyAgent
agent = record {
  destination = "host";
  extended = false;
  keys = record { blob = 1 ∷ []; comment = "laptop" } ∷ [];
}

sign_gated_example :
    (a : Ask) × AsksToSign digests agent peer.sender_info (1 ∷ []) a
    × (((e : Error) × ((authorize world a peer).1 ≡ some e)
          × Denied e
              (sign_with_approval digests agent world peer (1 ∷ []) (2 ∷ []) 0 (answered (3 ∷ []))))
        ⊎ (Grounds world a peer
            × Passed (1 ∷ []) (2 ∷ []) (answered (3 ∷ [])) (
                sign_with_approval digests agent world peer
                  (1 ∷ [])
                  (2 ∷ [])
                  0
                  (answered (3 ∷ [])))))
sign_gated_example = sign_gated digests agent world peer (1 ∷ []) (2 ∷ []) 0 (answered (3 ∷ []))
