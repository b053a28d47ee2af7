-- ===== src/Provision/Scripts.antt =====
-- The scripts that internal/api/provision.go generates, line by line: `buildProvisionScript` and
-- `buildProvisionScriptWindows`. Each begins with the lines that hold the values of the request.
use safe_dock.Common.{List, [], ◌∷◌, ◌++◌, Text, codes}

-- Every line with its end.
unfoldable pub unlines : List Text → Text
unlines [] = []
unlines (l ∷ ls) = l ++ (b'\n' ∷ unlines ls)

-- The comments at the top.
abbrev pub linux_comments : (user suffix : Text) → List Text
linux_comments user suffix =
    codes "#!/usr/bin/env bash"
    ∷ codes "#"
    ∷ codes "# SafeDock — provisionnement d'un acces SSH restreint sur cet hote."
    ∷ codes "# A executer EN ROOT sur la machine cible. Idempotent (re-executable sans risque)."
    ∷ codes "#"
    ∷ (codes "# Effet : cree l'utilisateur '"
        ++ (user ++ codes "' (sans mot de passe, groupe docker) dont la"))
    ∷ (codes "# cle SSH ne peut QUE relayer l'API Docker via \"docker system dial-stdio\""
        ++ (suffix ++ codes "."))
    ∷ codes "# Aucun shell, aucun rebond, aucune redirection ne sont possibles avec cette cle."
    ∷ codes "#"
    ∷ []

-- The lines that hold the values.
abbrev pub linux_values : (user pub_key from : Text) → List Text
linux_values user pub_key from =
    codes "set -euo pipefail"
    ∷ []
    ∷ (codes "SAFEDOCK_USER='" ++ (user ++ codes "'"))
    ∷ (codes "PUBKEY='" ++ (pub_key ++ codes "'"))
    ∷ (codes "FROM=" ++ from)
    ∷ []

-- The rest, which holds none.
unfoldable pub linux_rest : List Text
linux_rest =
    []
    ∷ codes "if [ \"$(id -u)\" -ne 0 ]; then"
    ∷ codes "  echo \"Erreur : ce script doit etre lance en root.\" >&2; exit 1"
    ∷ codes "fi"
    ∷ codes "if ! command -v docker >/dev/null 2>&1; then"
    ∷ codes "  echo \"Erreur : Docker ne semble pas installe sur cet hote.\" >&2; exit 1"
    ∷ codes "fi"
    ∷ []
    ∷ codes "# 1. Utilisateur dedie (cree si absent), mot de passe verrouille (cle uniquement)."
    ∷ codes "if ! id \"$SAFEDOCK_USER\" >/dev/null 2>&1; then"
    ∷ codes "  useradd -m -s /bin/bash \"$SAFEDOCK_USER\""
    ∷ codes "fi"
    ∷ codes "# Le groupe 'docker' peut ne pas exister (Docker rootless, groupe different) :"
    ∷ codes "# on n'interrompt pas le script (set -e) si c'est le cas."
    ∷ codes "if getent group docker >/dev/null 2>&1; then"
    ∷ codes "  usermod -aG docker \"$SAFEDOCK_USER\""
    ∷ codes "else"
    ∷ codes
        "  echo \"Avertissement : groupe 'docker' introuvable. Ajoutez '$SAFEDOCK_USER' au groupe proprietaire du socket Docker.\" >&2"
    ∷ codes "fi"
    ∷ codes "passwd -l \"$SAFEDOCK_USER\" >/dev/null"
    ∷ []
    ∷ codes "# 2. authorized_keys verrouille au moindre privilege."
    ∷ codes "# Repli si le home n'est pas renseigne (compte systeme cree sans -m) pour eviter"
    ∷ codes "# d'ecrire dans /.ssh a la racine."
    ∷ codes "HOME_DIR=\"$(getent passwd \"$SAFEDOCK_USER\" | cut -d: -f6)\""
    ∷ codes "if [ -z \"$HOME_DIR\" ] || [ \"$HOME_DIR\" = \"/\" ]; then"
    ∷ codes "  HOME_DIR=\"/home/$SAFEDOCK_USER\""
    ∷ codes "fi"
    ∷ codes "SSH_DIR=\"$HOME_DIR/.ssh\""
    ∷ codes "install -d -m 700 -o \"$SAFEDOCK_USER\" -g \"$SAFEDOCK_USER\" \"$SSH_DIR\""
    ∷ codes "AUTH=\"$SSH_DIR/authorized_keys\""
    ∷ codes "OPTS='command=\"docker system dial-stdio\",restrict'"
    ∷ codes "LINE=\"${FROM}${OPTS} ${PUBKEY}\""
    ∷ codes "touch \"$AUTH\""
    ∷ codes "# Retire toute ancienne ligne SafeDock avant de reecrire (idempotence)."
    ∷ codes
        "grep -vF 'command=\"docker system dial-stdio\"' \"$AUTH\" > \"$AUTH.tmp\" 2>/dev/null || true"
    ∷ codes "mv \"$AUTH.tmp\" \"$AUTH\""
    ∷ codes "printf '%s\\n' \"$LINE\" >> \"$AUTH\""
    ∷ codes "chown -R \"$SAFEDOCK_USER:$SAFEDOCK_USER\" \"$SSH_DIR\""
    ∷ codes "chmod 600 \"$AUTH\""
    ∷ []
    ∷ codes "# 3. Cle publique d'hote — a coller dans SafeDock pour l'epinglage (anti-MITM)."
    ∷ codes "echo"
    ∷ codes "echo \"============================================================\""
    ∷ codes "echo \" Hote pret pour SafeDock.\""
    ∷ codes "echo \" Copiez la ligne ci-dessous dans le champ\""
    ∷ codes "echo \" « Cle publique de l'hote » (epinglage anti-MITM) :\""
    ∷ codes "echo \"------------------------------------------------------------\""
    ∷ codes
        "cat /etc/ssh/ssh_host_ed25519_key.pub 2>/dev/null || echo \"(cle d'hote ed25519 introuvable)\""
    ∷ codes "echo \"============================================================\""
    ∷ []

-- The comments at the top.
abbrev pub windows_comments : (user suffix : Text) → List Text
windows_comments user suffix =
    codes "#Requires -RunAsAdministrator"
    ∷ codes "# SafeDock - provisionnement d'un acces SSH restreint sur cet hote Windows."
    ∷ codes "# A executer dans une console PowerShell EN ADMINISTRATEUR. Idempotent."
    ∷ codes "#"
    ∷ (codes "# Effet : cree l'utilisateur local '"
        ++ (user ++ codes "' (NON administrateur, groupe"))
    ∷ codes "# docker-users) dont la cle SSH ne peut QUE relayer l'API Docker via"
    ∷ (codes "# \"docker system dial-stdio\"" ++ (suffix ++ codes "."))
    ∷ []

-- The lines that hold the values.
abbrev pub windows_values : (user pub_key from : Text) → List Text
windows_values user pub_key from =
    []
    ∷ codes "$ErrorActionPreference = 'Stop'"
    ∷ (codes "$User   = '" ++ (user ++ codes "'"))
    ∷ (codes "$PubKey = '" ++ (pub_key ++ codes "'"))
    ∷ (codes "$From   = " ++ from)
    ∷ []

-- The rest, which holds none.
unfoldable pub windows_rest : List Text
windows_rest =
    codes "$DQ     = [char]34   # guillemet double, evite tout probleme d'echappement"
    ∷ []
    ∷ codes "# 1. OpenSSH Server present et demarre (service automatique)."
    ∷ codes "$cap = Get-WindowsCapability -Online -Name 'OpenSSH.Server*' | Select-Object -First 1"
    ∷ codes
        "if ($cap -and $cap.State -ne 'Installed') { Add-WindowsCapability -Online -Name $cap.Name | Out-Null }"
    ∷ codes "if (Get-Service -Name sshd -ErrorAction SilentlyContinue) {"
    ∷ codes "  Set-Service -Name sshd -StartupType Automatic"
    ∷ codes "  Start-Service sshd"
    ∷ codes "} else {"
    ∷ codes
        "  Write-Warning 'Service sshd introuvable. Installez OpenSSH Server (Add-WindowsCapability -Online -Name OpenSSH.Server~~~~0.0.1.0) puis relancez ce script.'"
    ∷ codes "}"
    ∷ []
    ∷ codes "# 2. Verification de Docker."
    ∷ codes "if (-not (Get-Command docker -ErrorAction SilentlyContinue)) {"
    ∷ codes
        "  Write-Warning 'Docker introuvable dans le PATH. Installez/demarrez Docker (Engine en service recommande, voir notes).'"
    ∷ codes "}"
    ∷ []
    ∷ codes "# 3. Utilisateur local dedie (NON admin), mot de passe aleatoire, dans docker-users."
    ∷ codes "$bytes = New-Object 'System.Byte[]' 24"
    ∷ codes "[System.Security.Cryptography.RandomNumberGenerator]::Create().GetBytes($bytes)"
    ∷ codes "$pw  = [System.Convert]::ToBase64String($bytes)"
    ∷ codes "$sec = ConvertTo-SecureString $pw -AsPlainText -Force"
    ∷ codes "if (-not (Get-LocalUser -Name $User -ErrorAction SilentlyContinue)) {"
    ∷ codes
        "  New-LocalUser -Name $User -Password $sec -FullName 'SafeDock agent' -Description 'Acces Docker restreint SafeDock' -PasswordNeverExpires | Out-Null"
    ∷ codes "} else {"
    ∷ codes "  Set-LocalUser -Name $User -Password $sec -PasswordNeverExpires $true"
    ∷ codes "}"
    ∷ codes "if (Get-LocalGroup -Name 'docker-users' -ErrorAction SilentlyContinue) {"
    ∷ codes
        "  Add-LocalGroupMember -Group 'docker-users' -Member $User -ErrorAction SilentlyContinue"
    ∷ codes "} else {"
    ∷ codes
        "  Write-Warning 'Groupe docker-users absent (Docker Desktop non installe ?). L utilisateur doit pouvoir acceder au moteur Docker.'"
    ∷ codes "}"
    ∷ []
    ∷ codes "# 4. authorized_keys par-utilisateur, verrouille au moindre privilege."
    ∷ codes "# Resout le VRAI dossier de profil. Un compte jamais connecte n'a pas encore de"
    ∷ codes "# profil : sshd ne lirait pas une cle posee dans un C:\\Users\\<user> fabrique."
    ∷ codes
        "$sid = (New-Object System.Security.Principal.NTAccount($User)).Translate([System.Security.Principal.SecurityIdentifier]).Value"
    ∷ codes
        "$prof = Get-CimInstance Win32_UserProfile -Filter ('SID=' + [char]39 + $sid + [char]39) -ErrorAction SilentlyContinue"
    ∷ codes "if ($prof) {"
    ∷ codes "  $homeDir = $prof.LocalPath"
    ∷ codes "} else {"
    ∷ codes "  $homeDir = Join-Path 'C:\\Users' $User"
    ∷ codes
        "  Write-Warning ('Le profil de ' + $User + ' n existe pas encore : la cle est posee dans ' + $homeDir + ' mais sshd ne la lira qu une fois le profil cree. Ouvrez une session une fois avec ce compte (ou via runas), puis relancez ce script.')"
    ∷ codes "}"
    ∷ codes "$sshDir = Join-Path $homeDir '.ssh'"
    ∷ codes "New-Item -ItemType Directory -Force -Path $sshDir | Out-Null"
    ∷ codes "$auth = Join-Path $sshDir 'authorized_keys'"
    ∷ codes "$dial = 'docker system dial-stdio'"
    ∷ codes "if ([string]::IsNullOrEmpty($From)) {"
    ∷ codes "  $opts = 'command=' + $DQ + $dial + $DQ + ',restrict'"
    ∷ codes "} else {"
    ∷ codes "  $opts = 'from=' + $DQ + $From + $DQ + ',command=' + $DQ + $dial + $DQ + ',restrict'"
    ∷ codes "}"
    ∷ codes "$line = $opts + ' ' + $PubKey"
    ∷ codes "Set-Content -Path $auth -Value $line -Encoding ascii"
    ∷ []
    ∷ codes "# ACL stricte (sshd StrictModes) : seuls l'utilisateur, SYSTEM et Administrators."
    ∷ codes "icacls $auth /inheritance:r | Out-Null"
    ∷ codes "icacls $auth /grant ($User + ':R') 'SYSTEM:F' 'Administrators:F' | Out-Null"
    ∷ []
    ∷ codes "# 5. Cle publique d'hote -- a coller dans SafeDock pour l'epinglage (anti-MITM)."
    ∷ codes "Write-Host ''"
    ∷ codes "Write-Host '============================================================'"
    ∷ codes "Write-Host ' Hote pret pour SafeDock.'"
    ∷ codes "Write-Host ' Copiez la ligne ci-dessous dans le champ'"
    ∷ codes "Write-Host ' « Cle publique de l hote » (epinglage anti-MITM) :'"
    ∷ codes "Write-Host '------------------------------------------------------------'"
    ∷ codes "if (Test-Path 'C:\\ProgramData\\ssh\\ssh_host_ed25519_key.pub') {"
    ∷ codes "  Get-Content 'C:\\ProgramData\\ssh\\ssh_host_ed25519_key.pub'"
    ∷ codes "} else {"
    ∷ codes "  Write-Host '(cle d hote ed25519 introuvable)'"
    ∷ codes "}"
    ∷ codes "Write-Host '============================================================'"
    ∷ codes "Write-Host 'NB: si HKLM:\\SOFTWARE\\OpenSSH\\DefaultShell pointe vers PowerShell,'"
    ∷ codes
        "Write-Host '    repassez-le sur cmd.exe (defaut) -- PowerShell peut corrompre le flux binaire de dial-stdio.'"
    ∷ []
