-- ===== src/Receivers/Gitlab.antt =====
-- internal/receiver/gitlab/receiver.go.
use sherlock.Prelude.{
  ℤ, lower_text, String, Bool, ◌&&◌, not, List, [], ◌∷◌, ◌++◌, Option, none, some, str_eq,
  if◌then◌else◌, Result, ok, err, length,
}
use sherlock.Contracts.{Attributes, NormalizedAlert, lookup}
use sherlock.Gateway.{AlertReceiver}
use sherlock.Receivers.{
  Inputs, severity_info, severity_warning, target_ref, link, fingerprint_of, repo_alert, or_text,
  sentence,
}

pub record Project : Type 0 where
  pub name : String
  pub path_with_namespace : String
  pub web_url : String

pub record GitlabCommit : Type 0 where
  pub id : String
  pub message : String
  pub url : String
  pub author_name : String
  pub author_email : String

pub record DeploymentHookEvent : Type 0 where
  pub object_kind : String
  pub status : String
  pub deployable_id : ℤ
  pub environment : String
  pub short_sha : String
  pub commit_url : String
  pub commit_title : String
  pub user : String
  pub user_username : String
  pub project : Project

pub record PushHookEvent : Type 0 where
  pub object_kind : String
  pub ref : String
  pub before : String
  pub after : String
  pub user_name : String
  pub user_username : String
  pub commits : List GitlabCommit
  pub project : Project

-- The JSON parsers of the two events.
pub record GitlabEvents (E : Type 0) : Type 0 where
  pub deployment_hook : String → Result E DeploymentHookEvent
  pub push_hook : String → Result E PushHookEvent

abbrev pub build_deployment_links : DeploymentHookEvent → List (String × String)
build_deployment_links ev = link "commit" ev.commit_url ++ link "project" ev.project.web_url

-- The message of the last commit, or "" if there is none.
abbrev pub last_message : List GitlabCommit → String
last_message [] = ""
last_message (c ∷ []) = c.message
last_message (c ∷ d ∷ rest) = last_message (d ∷ rest)

abbrev pub is_ignored : String → Bool
is_ignored status =
    not (str_eq status "running") && not (str_eq status "failed") && not (str_eq status "created")

module _ {E : Type 0} (x : Inputs E) (events : GitlabEvents E) where
  unfoldable pub verify : String → Attributes → String → Option E
  verify secret_token headers body =
      let token = lookup "X-Gitlab-Token" headers in
      if str_eq secret_token ""
      then none
      else if str_eq token ""
      then some (x.errorf "missing X-Gitlab-Token header")
      else if str_eq token secret_token
      then none
      else some (x.errorf "secret token mismatch")

  abbrev pub deployment_alert : DeploymentHookEvent → String → NormalizedAlert
  deployment_alert ev status =
      let proj = ev.project.path_with_namespace in
      repo_alert x "gitlab" (if str_eq status "failed" then severity_warning else severity_info)
        (sentence "Deployment " status " — " (sentence "" ev.project.name "/" ev.environment))
        (sentence "Deployment of " ev.short_sha " to " ev.environment)
        (fingerprint_of x (proj ∷ ev.environment ∷ ev.short_sha ∷ []))
        (("project", proj)
          ∷ ("environment", ev.environment)
          ∷ ("status", status)
          ∷ ("sha", ev.short_sha)
          ∷ ("user", ev.user_username)
          ∷ [])
        (target_ref "repo" ev.project.name "" "" proj ev.environment) (build_deployment_links ev)

  abbrev pub deployment_alerts : DeploymentHookEvent → String → List NormalizedAlert
  deployment_alerts ev status = if is_ignored status then [] else deployment_alert ev status ∷ []

  abbrev pub decode_deployment : Result E DeploymentHookEvent → Result E (List NormalizedAlert)
  decode_deployment (err e) = err (x.wrapf "unmarshalling gitlab deployment hook" e)
  decode_deployment (ok ev) = ok (deployment_alerts ev (lower_text ev.status))

  abbrev pub push_alert : PushHookEvent → NormalizedAlert
  push_alert ev =
      let proj = ev.project.path_with_namespace in
      repo_alert x "gitlab" severity_info (sentence "Push to " ev.ref " — " ev.project.name)
        (or_text (last_message ev.commits)
          (sentence "" (x.print (length ev.commits)) " commits pushed to " ev.ref))
        (fingerprint_of x (proj ∷ ev.ref ∷ ev.after ∷ []))
        (("project", proj) ∷ ("ref", ev.ref) ∷ ("user_name", ev.user_name) ∷ ("sha", ev.after) ∷ [])
        (target_ref "repo" ev.project.name "" "" proj "") (link "project" ev.project.web_url)

  abbrev pub decode_push : Result E PushHookEvent → Result E (List NormalizedAlert)
  decode_push (err e) = err (x.wrapf "unmarshalling gitlab push hook" e)
  decode_push (ok ev) = ok (push_alert ev ∷ [])

  unfoldable pub decode : Attributes → String → Result E (List NormalizedAlert)
  decode headers body =
      let event = lookup "X-Gitlab-Event" headers in
      if str_eq event "Deployment Hook"
      then decode_deployment (events.deployment_hook body)
      else if str_eq event "Push Hook"
      then decode_push (events.push_hook body)
      else ok []

  unfoldable pub receiver : String → AlertReceiver E
  unfolding verify decode
  receiver secret_token = record { verify = verify secret_token; decode = decode }
