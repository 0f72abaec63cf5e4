-- ===== src/Keygen.antt =====
-- pkg/keygen/keygen.go: a key pair in the formats that are searched and reported.
-- The cryptography and the encodings are arguments.
use vanitykeygen.Common.{ℕ, String, []}
use vanitykeygen.Vkg.{Bytes}
use vanitykeygen.Runtime.{Outcome, ok, err}

pub record Crypto : Type 0 where
  -- ed25519.GenerateKey with rand.Reader, the public key first; calls are numbered
  pub generate_key : ℕ → Outcome String (Bytes × Bytes)
  -- ssh.NewPublicKey, by what Marshal makes of it
  pub new_public_key : Bytes → Outcome String Bytes
  -- ssh.MarshalPrivateKey without a comment, by what pem.EncodeToMemory makes of it
  pub marshal_private_key : Bytes → Outcome String Bytes
  -- ssh.MarshalAuthorizedKey, by the key's Marshal
  pub marshal_authorized_key : Bytes → String
  pub trim_space : String → String
  pub sha256 : Bytes → Bytes
  -- base64.StdEncoding.EncodeToString
  pub base64 : Bytes → String

-- Result
pub record KeyResult : Type 0 where
  pub public_key : Bytes
  pub private_key : Bytes
  pub authorized_key : String
  pub fingerprint : String
  pub encoded_key : Bytes

-- Result{}
abbrev pub empty_key : KeyResult
empty_key = record {
  public_key = [];
  private_key = [];
  authorized_key = "";
  fingerprint = "";
  encoded_key = [];
}

module _ {A B : Type 0} where
  -- `if err != nil { return Result{}, err }`
  abbrev and_then : Outcome String A → (A → Outcome String B) → Outcome String B
  and_then (ok a) next = next a
  and_then (err e) next = err e

-- Generate
unfoldable pub generate : Crypto → ℕ → Outcome String KeyResult
generate crypto n = and_then (crypto.generate_key n) (λ pair.
    and_then (crypto.new_public_key (pair.0)) (λ ssh_pub.
      and_then (crypto.marshal_private_key (pair.1)) (λ pem. ok (record {
        public_key = pair.0;
        private_key = pair.1;
        authorized_key = crypto.trim_space (crypto.marshal_authorized_key ssh_pub);
        fingerprint = crypto.base64 (crypto.sha256 ssh_pub);
        encoded_key = pem;
      }))))
