-- ===== src/Header.antt =====
-- internal/web/frontend/src/components/Header.jsx: the heading of each page and the name of the user,
-- with the monogram and the names of components/AccountView.jsx. The clock is not modelled.
pub mod Names
mod Tests
use safe_dock.Common.{
  ℕ, List, [], ◌∷◌, ◌++◌, Bool, true, false, not, Option, none, some, Text, codes, text_eq,
  is_empty, keep, take, if◌then◌else◌,
}
use safe_dock.App.{
  Page, dashboard, containers, audit, watch, notifications, account, settings, container_settings,
  actions, agents, container_detail, exceptions, users, compliance, not_found,
}
use safe_dock.Http.{or_text}
use safe_dock.Trim.{trim}

-- An entry of `PAGE_META`
pub record Heading : Type 0 where
  pub title : Text
  pub desc : Text

abbrev pub dashboard_heading : Heading
dashboard_heading = record {
  title = codes "Tableau de bord";
  desc = codes "Analyse en temps réel de votre parc Docker";
}

-- `PAGE_META[page]`; its entry `permissions` belongs to no page.
unfoldable pub meta_of : Page → Option Heading
meta_of dashboard = some dashboard_heading
meta_of containers = some (record {
  title = codes "Inventaire des conteneurs";
  desc = codes "Statuts, scores de sécurité et métadonnées";
})
meta_of compliance = some (record {
  title = codes "Conformité par tag";
  desc = codes "Posture de sécurité agrégée par environnement / équipe";
})
meta_of watch = some (record {
  title = codes "Veille & Menaces";
  desc = codes "Bulletins de vulnérabilités et guides de durcissement";
})
meta_of notifications = some (record {
  title = codes "Centre de Notifications";
  desc = codes "Alertes et événements de sécurité récents";
})
meta_of account = some (record {
  title = codes "Mon Compte";
  desc = codes "Identité, sécurité et préférences d'alertes";
})
meta_of settings = some (record {
  title = codes "Configuration";
  desc = codes "Règles de sécurité globales, accès et politiques";
})
meta_of container_settings = some (record {
  title = codes "Surcharges du conteneur";
  desc = codes "Seuils de tolérance spécifiques à ce conteneur";
})
meta_of actions = some (record {
  title = codes "Actions";
  desc = codes "Mises à jour d'images et correctifs à appliquer";
})
meta_of agents = some (record {
  title = codes "Multi-hôtes";
  desc = codes "Supervision de plusieurs démons Docker (local + distants en TLS)";
})
meta_of container_detail = some (record {
  title = codes "Cockpit du conteneur";
  desc = codes "Détails, scans de vulnérabilités et conformité";
})
meta_of audit = some (record {
  title = codes "Audit d'Image";
  desc = codes "Analysez n'importe quelle image Docker avant déploiement";
})
meta_of exceptions = some (record {
  title = codes "Risques acceptés";
  desc = codes "CVE tolérées : visibles mais ne bloquant pas les déploiements";
})
meta_of not_found =
    some (record {
      title = codes "Ressource introuvable";
      desc = codes "La page demandée n'existe pas";
    })
meta_of users = none

abbrev or_dashboard : Option Heading → Heading
or_dashboard none = dashboard_heading
or_dashboard (some h) = h

-- `PAGE_META[activePage] || PAGE_META.dashboard`
unfoldable pub heading : Page → Heading
heading p = or_dashboard (meta_of p)

-- What the header reads of `me`.
pub record Person : Type 0 where
  pub first_name : Text
  pub last_name : Text
  pub username : Text
  pub role : Text

-- `.join(' ')`
unfoldable pub join_words : List Text → Text
join_words [] = []
join_words (w ∷ []) = w
join_words (w ∷ v ∷ ws) = w ++ (b' ' ∷ join_words (v ∷ ws))

-- `.filter(Boolean).join(' ').trim()`
unfoldable pub full_name : (first last : Text) → Text
unfolding join_words
full_name first last = trim (join_words (keep (λ w. not (is_empty w)) (first ∷ last ∷ [])))

unfoldable pub person_label : Option Person → Text
unfolding full_name
person_label none = codes "Utilisateur"
person_label (some p) =
    or_text (or_text (full_name p.first_name p.last_name) p.username) (codes "Utilisateur")

-- `ROLE_LABELS[role]`
unfoldable pub role_label : Text → Option Text
role_label r =
    if text_eq r (codes "admin")
    then some (codes "Administrateur")
    else (if text_eq r (codes "auditor")
        then some (codes "Auditeur")
        else (if text_eq r (codes "viewer") then some (codes "Lecteur") else none))

module _ (to_upper : Text → Text) where
  initials_of_base : Text → Text
  initials_of_base [] = codes "?"
  initials_of_base (c ∷ s) = to_upper (take 2 (c ∷ s))

  -- With both names their initials, else the first two letters of what there is.
  unfoldable pub initials : (a b username : Text) → Text
  unfolding initials_of_base
  initials (c ∷ a) (d ∷ b) username = to_upper (c ∷ d ∷ [])
  initials a b username = initials_of_base (or_text (or_text a b) username)

  -- `personInitials`
  unfoldable pub person_initials : Option Person → Text
  unfolding initials initials_of_base
  person_initials none = initials [] [] []
  person_initials (some p) = initials (trim p.first_name) (trim p.last_name) p.username
