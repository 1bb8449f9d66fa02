-- ===== src/Orchestrator/Rig/Scheme.antt =====
-- Which scheme the reading of a rig settles on.
use sumo_provision.Base.{
  ℕ, ◌≡◌, refl, sym, Bool, true, false, not, none, List, [], ◌∷◌, ◌++◌, Text, text, text_eq, arith,
  Result, ok, err, ◌>>=◌, or_err,
}
use mathlib.Core.Path.{subst}
use sumo_provision.Wire.Hash.{Hex}
use sumo_provision.Wire.Model.{empty_tree}
use sumo_provision.Client.{trim_end_slashes}
use sumo_provision.Orchestrator.Model.{Error, sovd}
use sumo_provision.Orchestrator.Rig.{
  SovdClientError, server_error, http_error, other_error, Component, Sovd, candidates, swap_scheme,
  split_once, probe, connect_sovd, read_components, read_rig_state,
}

-- The url of a host, by HTTPS or by plain HTTP.
abbrev pub url_of : Bool → Text → Text
url_of true host = text "https://" ++ host
url_of false host = text "http://" ++ host

-- A host is named, and no slash hangs on its end.
pub record IsHost (host : Text) : Type 0 where
  pub starts : ℕ
  pub rest : Text
  pub named : host ≡ starts ∷ rest
  pub trimmed : trim_end_slashes host ≡ host

trim-cons :
    (c d : ℕ) (s : Text)
    → trim_end_slashes (d ∷ s) ≡ d ∷ s
    → trim_end_slashes (c ∷ d ∷ s) ≡ c ∷ d ∷ s
unfolding trim_end_slashes
trim-cons c d s h = rw h refl

trim-url_of :
    (secure : Bool) (host : Text)
    → IsHost host
    → trim_end_slashes (url_of secure host) ≡ url_of secure host
unfolding trim_end_slashes
trim-url_of secure host h =
    subst (λ (t : Text). trim_end_slashes (url_of secure t) ≡ url_of secure t) (sym h.named)
      (at secure (subst (λ (t : Text). trim_end_slashes t ≡ t) h.named h.trimmed))
  where
    at :
        (b : Bool)
        → trim_end_slashes (h.starts ∷ h.rest) ≡ h.starts ∷ h.rest
        → trim_end_slashes (url_of b (h.starts ∷ h.rest)) ≡ url_of b (h.starts ∷ h.rest)
    at true e = rw e refl
    at false e = rw e refl

candidates-url_of :
    (secure : Bool) (host : Text)
    → IsHost host
    → candidates (trim_end_slashes (url_of secure host))
      ≡ url_of secure host ∷ url_of (not secure) host ∷ []
unfolding candidates text_eq
candidates-url_of secure host h = rw (trim-url_of secure host h) (at secure)
  where
    at :
        (b : Bool)
        → swap_scheme (url_of b host) (split_once (text "://") (url_of b host))
          ≡ url_of b host ∷ url_of (not b) host ∷ []
    at true = refl
    at false = refl

-- the server answered, with a status
abbrev pub is_status : SovdClientError → Bool
is_status (server_error status) = true
is_status http_error = false
is_status other_error = false

module _ (device : Sovd) (hex : Hex) where
  open device use {SovdClient, new_verifying, list_components}

  abbrev reached :
      SovdClient
      → Result SovdClientError (List Component)
      → Result Error (SovdClient × List Component)
  reached live (ok components) = ok (live, components)
  reached live (err e) = err sovd

  probe-live :
      (u v : Text) (live dead : SovdClient) (lost : SovdClientError)
      → new_verifying u ≡ ok live
      → new_verifying v ≡ ok dead
      → list_components dead ≡ err lost
      → is_status lost ≡ false
      → probe device none (u ∷ v ∷ []) ≡ reached live (list_components live)
  unfolding probe
  probe-live u v live dead (server_error status) a b silent kind = cc
  probe-live u v live dead http_error a b silent kind = ground arith
  probe-live u v live dead other_error a b silent kind = ground arith

  probe-dead :
      (u v : Text) (live dead : SovdClient) (lost : SovdClientError)
      → new_verifying u ≡ ok live
      → new_verifying v ≡ ok dead
      → list_components dead ≡ err lost
      → is_status lost ≡ false
      → probe device none (v ∷ u ∷ []) ≡ reached live (list_components live)
  unfolding probe
  probe-dead u v live dead (server_error status) a b silent kind = cc
  probe-dead u v live dead http_error a b silent kind = ground arith
  probe-dead u v live dead other_error a b silent kind = ground arith

  connect-either :
      (host : Text) (secure given : Bool) (live dead : SovdClient) (lost : SovdClientError)
      → IsHost host
      → new_verifying (url_of secure host) ≡ ok live
      → new_verifying (url_of (not secure) host) ≡ ok dead
      → list_components dead ≡ err lost
      → is_status lost ≡ false
      → connect_sovd device (url_of given host) ≡ reached live (list_components live)
  unfolding connect_sovd
  connect-either host secure given live dead lost h a b silent kind =
      rw (candidates-url_of given host h) (at secure given a b)
    where
      at :
          (s g : Bool)
          → new_verifying (url_of s host) ≡ ok live
          → new_verifying (url_of (not s) host) ≡ ok dead
          → probe device none (url_of g host ∷ url_of (not g) host ∷ [])
            ≡ reached live (list_components live)
      at true true a b = probe-live _ _ live dead lost a b silent kind
      at true false a b = probe-dead _ _ live dead lost a b silent kind
      at false true a b = probe-dead _ _ live dead lost a b silent kind
      at false false a b = probe-live _ _ live dead lost a b silent kind

  -- When a client can be built for a host on HTTPS and on HTTP, and on one of the two schemes the
  -- list of components meets an error that is not a status of the server, the rig is read on the
  -- other scheme, whichever of the two the url was given with.
  pub either-scheme :
      (host : Text) (secure given : Bool) (live dead : SovdClient) (lost : SovdClientError)
      → IsHost host
      → new_verifying (url_of secure host) ≡ ok live
      → new_verifying (url_of (not secure) host) ≡ ok dead
      → list_components dead ≡ err lost
      → is_status lost ≡ false
      → read_rig_state device hex (url_of given host) ≡ (
          or_err (list_components live) sovd >>= λ components.
          read_components device hex live components empty_tree)
  unfolding read_rig_state
  either-scheme host secure given live dead lost h at_live at_dead silent kind =
      rw (connect-either host secure given live dead lost h at_live at_dead silent kind)
        (at (list_components live))
    where
      at :
          (r : Result SovdClientError (List Component))
          → (reached live r >>= λ c. read_components device hex c.0 c.1 empty_tree)
            ≡ (or_err r sovd >>= λ cs. read_components device hex live cs empty_tree)
      at (ok cs) = refl
      at (err e) = refl
