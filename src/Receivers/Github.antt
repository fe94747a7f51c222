-- ===== src/Receivers/Github.antt =====
-- internal/receiver/github/receiver.go.
use sherlock.Prelude.{
  ℤ, lower_text, String, ◌&&◌, not, List, [], ◌∷◌, ◌++◌, Option, none, some, str_eq, if◌then◌else◌,
  Result, ok, err, length, ltb,
}
use sherlock.Contracts.{Attributes, NormalizedAlert, lookup}
use sherlock.Gateway.{AlertReceiver}
use sherlock.Matches.{text_length, take_text, after_prefix}
use sherlock.Receivers.{
  Inputs, severity_info, severity_warning, target_ref, link, fingerprint_of, repo_alert, or_text,
  sentence,
}

pub record Repository : Type 0 where
  pub full_name : String
  pub name : String
  pub html_url : String

pub record Deployment : Type 0 where
  pub id : ℤ
  pub sha : String
  pub ref : String
  pub environment : String
  pub description : String
  pub url : String
  pub creator_login : String

pub record DeploymentEvent : Type 0 where
  pub action : String
  pub deployment : Deployment
  pub repository : Repository
  pub sender_login : String

pub record DeploymentState : Type 0 where
  pub id : ℤ
  pub state : String
  pub description : String
  pub target_url : String
  pub environment_url : String
  pub deployment : Deployment

pub record DeploymentStatusEvent : Type 0 where
  pub deployment_status : DeploymentState
  pub deployment : Deployment
  pub repository : Repository
  pub sender_login : String

pub record GithubCommit : Type 0 where
  pub id : String
  pub message : String
  pub url : String
  pub author_name : String
  pub author_username : String

pub record PushEvent : Type 0 where
  pub ref : String
  pub before : String
  pub after : String
  pub compare : String
  pub head_commit : Option GithubCommit
  pub commits : List GithubCommit
  pub repository : Repository
  pub sender_login : String

-- The JSON parsers of the three events.
pub record GithubEvents (E : Type 0) : Type 0 where
  pub deployment_event : String → Result E DeploymentEvent
  pub deployment_status_event : String → Result E DeploymentStatusEvent
  pub push_event : String → Result E PushEvent

-- The first seven characters, which the source counts in bytes.
abbrev pub short_sha : String → String
short_sha sha = if ltb 7 (text_length sha) then take_text 7 sha else sha

abbrev pub build_deployment_links : Deployment → Repository → List (String × String)
build_deployment_links d repo = link "deployment" d.url ++ link "repository" repo.html_url

abbrev pub build_deployment_status_links : DeploymentStatusEvent → List (String × String)
build_deployment_status_links ev =
    link "target" ev.deployment_status.target_url
    ++ build_deployment_links ev.deployment ev.repository

-- The message of the head commit, or "" if there is none.
abbrev pub head_message : Option GithubCommit → String
head_message none = ""
head_message (some c) = c.message

module _ {E : Type 0} (x : Inputs E) (events : GithubEvents E) where
  -- The check of a signature without its prefix; `none` is one that does not begin with it.
  abbrev pub verify_hex : String → String → Option String → Option E
  verify_hex secret body none = some (x.errorf "malformed X-Hub-Signature-256 header")
  verify_hex secret body (some sig) =
      if str_eq sig (x.hmac_hex secret body)
      then none
      else some (x.errorf "HMAC signature mismatch")

  unfoldable pub verify : String → Attributes → String → Option E
  verify secret headers body =
      let sig = lookup "X-Hub-Signature-256" headers in
      if str_eq secret ""
      then none
      else if str_eq sig ""
      then some (x.errorf "missing X-Hub-Signature-256 header")
      else verify_hex secret body (after_prefix "sha256=" sig)

  abbrev pub deployment_alert : DeploymentEvent → NormalizedAlert
  deployment_alert ev =
      let d = ev.deployment in
      let repo = ev.repository.full_name in
      repo_alert x "github" severity_info (sentence "Deployment to " d.environment " — " repo)
        (or_text d.description (sentence "Deployment of " (short_sha d.sha) " to " d.environment))
        (fingerprint_of x (repo ∷ d.environment ∷ d.sha ∷ []))
        (("repo", repo)
          ∷ ("environment", d.environment)
          ∷ ("ref", d.ref)
          ∷ ("sha", d.sha)
          ∷ ("sender", ev.sender_login)
          ∷ [])
        (target_ref "repo" ev.repository.name "" "" repo d.environment)
        (build_deployment_links d ev.repository)

  abbrev pub decode_deployment : Result E DeploymentEvent → Result E (List NormalizedAlert)
  decode_deployment (err e) = err (x.wrapf "unmarshalling github deployment event" e)
  decode_deployment (ok ev) = ok (deployment_alert ev ∷ [])

  abbrev pub deployment_status_alert : DeploymentStatusEvent → String → NormalizedAlert
  deployment_status_alert ev state =
      let d = ev.deployment in
      let repo = ev.repository.full_name in
      repo_alert x "github" severity_warning
        (sentence "Deployment " state " — " (sentence "" repo "/" d.environment))
        ev.deployment_status.description (fingerprint_of x (repo ∷ d.environment ∷ d.sha ∷ []))
        (("repo", repo)
          ∷ ("environment", d.environment)
          ∷ ("ref", d.ref)
          ∷ ("sha", d.sha)
          ∷ ("status", state)
          ∷ ("sender", ev.sender_login)
          ∷ [])
        (target_ref "repo" ev.repository.name "" "" repo d.environment)
        (build_deployment_status_links ev)

  -- Only a deployment that failed is an alert.
  abbrev pub deployment_status_alerts : DeploymentStatusEvent → String → List NormalizedAlert
  deployment_status_alerts ev state =
      if not (str_eq state "failure") && not (str_eq state "error")
      then []
      else deployment_status_alert ev state ∷ []

  abbrev pub decode_deployment_status :
      Result E DeploymentStatusEvent → Result E (List NormalizedAlert)
  decode_deployment_status (err e) = err (x.wrapf "unmarshalling github deployment_status event" e)
  decode_deployment_status (ok ev) =
      ok (deployment_status_alerts ev (lower_text ev.deployment_status.state))

  abbrev pub push_labels : PushEvent → Attributes
  push_labels ev =
      ("repo", ev.repository.full_name)
      ∷ ("ref", ev.ref)
      ∷ ("sender", ev.sender_login)
      ∷ (if str_eq ev.after "" then [] else ("head_commit", ev.after) ∷ [])

  abbrev pub push_alert : PushEvent → NormalizedAlert
  push_alert ev =
      let repo = ev.repository.full_name in
      repo_alert x "github" severity_info (sentence "Push to " ev.ref " — " repo)
        (or_text (head_message ev.head_commit)
          (sentence "" (x.print (length ev.commits)) " commits pushed to " ev.ref))
        (fingerprint_of x (repo ∷ ev.ref ∷ ev.after ∷ [])) (push_labels ev)
        (target_ref "repo" ev.repository.name "" "" repo "") (link "compare" ev.compare)

  abbrev pub decode_push : Result E PushEvent → Result E (List NormalizedAlert)
  decode_push (err e) = err (x.wrapf "unmarshalling github push event" e)
  decode_push (ok ev) = ok (push_alert ev ∷ [])

  unfoldable pub decode : Attributes → String → Result E (List NormalizedAlert)
  decode headers body =
      let event = lookup "X-GitHub-Event" headers in
      if str_eq event "deployment"
      then decode_deployment (events.deployment_event body)
      else if str_eq event "deployment_status"
      then decode_deployment_status (events.deployment_status_event body)
      else if str_eq event "push"
      then decode_push (events.push_event body)
      else ok []

  unfoldable pub receiver : String → AlertReceiver E
  unfolding verify decode
  receiver secret = record { verify = verify secret; decode = decode }
