-- ===== src/Client/Run/Answers.antt =====
-- pkg/client/main.go: how register and fetchTargets end, by what the server answers.
use vanitykeygen.Common.{ℕ, suc, String, true, some, List, ◌≡◌, refl, Bool-cases, inl, inr}
use vanitykeygen.Vkg.{RegisterResponse, CompiledPattern}
use vanitykeygen.Store.Calls.{Outcome-cases}
use vanitykeygen.Runtime.{Outcome, ok, err}
use vanitykeygen.Client.{
  Client, Net, Response, is_success, register, fetch_targets, register_request,
}

-- What the server answered to the registration of a client: a success that names the client.
pub record IsRegistered (server : Net) (c : Client) (id : String) : Type 0 where
  pub response : Response RegisterResponse
  pub result : RegisterResponse
  pub answered : server.post_register c.requests (register_request server c) ≡ ok response
  pub success : is_success response.status ≡ true
  pub decoded : response.decoded ≡ ok result
  pub named : result.client_id ≡ id

-- How register and fetchTargets end.
pub data Registered (server : Net) (c : Client) (out : Outcome String (Unit {0}) × Client)
    : Type 0 where
  refused : (e : String) (c' : Client) → out ≡ (err e, c') → Registered server c out
  named :
      (id : String)
      → IsRegistered server c id
      → out ≡ (ok tt, record c { client_id = id; requests = suc c.requests })
      → Registered server c out

-- Patterns that the server gave in a successful response.
pub record IsServed (server : Net) (ps : List CompiledPattern) : Type 0 where
  pub number : ℕ
  pub response : Response (List CompiledPattern)
  pub answered : server.get_patterns number ≡ ok response
  pub success : is_success response.status ≡ true
  pub decoded : response.decoded ≡ ok ps

pub data Fetched (server : Net) (c : Client) (out : Outcome String (Unit {0}) × Client)
    : Type 0 where
  failed :
      (e : String) → out ≡ (err e, record c { requests = suc c.requests }) → Fetched server c out
  fetched :
      (ps : List CompiledPattern)
      → IsServed server ps
      → out ≡ (ok tt, record c { patterns = some ps; requests = suc c.requests })
      → Fetched server c out

module _ (server : Net) where
  pub register_cases : (c : Client) → Registered server c (register server c)
  unfolding register
  register_cases c =
      elim (Outcome-cases (server.post_register c.requests (register_request server c))) [
        | inr (e, out) ↦ rw (register, out) (Registered.refused _ _ refl)
        | inl (resp, out) ↦ elim (Bool-cases (is_success resp.status)) [
          | inr bad ↦ rw (register, out, bad) (Registered.refused _ _ refl)
          | inl good ↦ elim (Outcome-cases resp.decoded) [
            | inr (e, garbled) ↦ rw (register, out, good, garbled) (Registered.refused _ _ refl)
            | inl (result, read) ↦
                let is : IsRegistered server c result.client_id = record {
                  response = resp;
                  result = result;
                  answered = out;
                  success = good;
                  decoded = read;
                  named = refl;
                } in
                rw (register, out, good, read) (Registered.named result.client_id is refl)
          ]
        ]
      ]

  pub fetch_targets_cases : (c : Client) → Fetched server c (fetch_targets server c)
  unfolding fetch_targets
  fetch_targets_cases c = elim (Outcome-cases (server.get_patterns c.requests)) [
    | inr (e, out) ↦ rw (fetch_targets, out) (Fetched.failed _ refl)
    | inl (resp, out) ↦ elim (Bool-cases (is_success resp.status)) [
      | inr bad ↦ rw (fetch_targets, out, bad) (Fetched.failed _ refl)
      | inl good ↦ elim (Outcome-cases resp.decoded) [
        | inr (e, garbled) ↦ rw (fetch_targets, out, good, garbled) (Fetched.failed _ refl)
        | inl (ps, read) ↦
            let is : IsServed server ps = record {
              number = c.requests;
              response = resp;
              answered = out;
              success = good;
              decoded = read;
            } in
            rw (fetch_targets, out, good, read) (Fetched.fetched ps is refl)
      ]
    ]
  ]
