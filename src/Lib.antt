-- ===== src/Lib.antt =====
-- Zarya, a desktop client for proxy profiles: a model of its core logic over Qt's value classes,
-- and proofs about it.
--
-- The parts, and how they meet. A subscription is downloaded and parsed into profiles, one for
-- each share link (src/subscription), which are merged into the list of profiles; the dialog
-- validates a profile (src/domain/ProfileValidation.cpp); the Xray adapter (src/core) generates
-- the configuration of the core for it. The routing manager (src/routing) keeps the routing
-- profiles and which one is active, and its generator turns the active one into the routing
-- section of that configuration, as the DNS generator (src/dns) does with a DNS profile. For TUN
-- mode the same three profiles become a configuration of sing-box (src/runtime/singbox). The
-- updater (src/updater) reads a manifest, picks a channel and an asset, and leaves a plan file for
-- the separate updater program, which replaces the application's files. The helper process keeps
-- the kill switch (src/killswitch).
--
-- Prelude: texts, lists and numbers as Qt has them. Prelude/Texts.antt: a QString is a list of
--   UTF-16 code units; trimmed, split, startsWith, contains and the comparisons are written out,
--   and letters beyond ASCII keep their case except for those that fold into ASCII, which is what
--   the program's comparisons with ASCII literals can see. Prelude/Format.antt: QString::arg
--   and QString::number; `decimal` runs on fuel, one more than the number, which is never used up
--   because each step divides by ten. Prelude/Int.antt: integers with their comparisons.
-- Json: QJsonValue and QJsonObject, with fields in the order of their keys; numbers are integers;
--   toInt gives the default for those that do not fit 32 bits.
-- Updater/Version: src/updater/AppVersion.cpp. A version part that does not fit 32 bits is 0, as
--   toInt has it.
-- Updater/Channel, Manifest, Policy, Planner: the files of src/updater of those names, from
--   AppUpdateManifest::fromJson to AppUpdatePlanner::buildPlan. What the planner reads of its
--   surroundings (the target, the processor, the installation mode, one setting) is an argument.
-- Updater/PlanFile: src/updater/runner/UpdatePlanFile.cpp. The bytes of a file are what
--   QJsonDocument parses them to; whether it opens and takes the bytes is an argument.
-- Updater/Folder, Applier: src/updater/runner/PortableUpdateApplier.cpp and UpdateRollback.cpp as
--   built for Linux, where file names are told apart by their code units (Windows, where they are
--   not, and macOS are not modelled). A folder is the list of its regular files; what has a name
--   with a dot in front is hidden from the loops, as there is no QDir::Hidden in their filters.
--   Which copies and removals fail, what the new program answers and whether the application ends
--   in time are arguments. The pruning of old backups is left out.
-- Routing/Mode, Profiles, Validator, Generator: src/domain/RoutingMode.cpp and RoutingProfile.cpp,
--   src/routing/RoutingProfileValidator.cpp and XrayRoutingGenerator.cpp. std::stable_sort is an
--   insertion sort; both give the one stable order.
-- Routing/Manager: src/routing/RoutingManager.cpp as a state with one function per call. The
--   identifiers of QUuid, the clock and whether the store can be written are arguments; the setting
--   that remembers the active profile and the stored file are parts of the state.
-- KillSwitch/Marker, Manager: src/killswitch/KillSwitchMarker.cpp and KillSwitchManager.cpp. A
--   back end is a record of the operations of IKillSwitchBackend; whether rules are in force and
--   the marker file are parts of the state.
-- KillSwitch/LinuxNft: src/killswitch/linux/LinuxNftKillSwitchManager.cpp, the back end for Linux.
--   The command nft is a parameter, with what is documented of it as laws. The back ends for
--   Windows and macOS are not modelled.
-- Logging/LogBuffer: src/logging/LogBuffer.cpp.
-- Profiles/Profile, Validation: src/domain/Profile.cpp, ProtocolType.cpp, ProfileValidation.cpp.
-- Subscriptions/Parser: src/subscription/SubscriptionParser.cpp over a parser of single links.
-- Subscriptions/ShareLink: src/subscription/ShareLinkParser.cpp. QUrl, QUrlQuery, percent decoding,
--   base64, UTF-8, JSON parsing and QUuid are fields of the record Qt. Query is the items of a
--   query, Links the links that are URLs, Vmess and Shadowsocks the other two, Dispatch is parse.
-- Subscriptions/Update: src/subscription/SubscriptionManager.cpp. The downloader and the parser
--   are parameters, the hash table is an association list with the newest entry first.
--
-- Dns/Profiles, Generator: src/domain/DnsProfile.cpp and its types, src/dns/XrayDnsGenerator.cpp.
--   The manager and the validator of DNS profiles are not modelled.
-- Xray/Support, Stream, Outbounds, Config: src/core/XrayAdapter.cpp, XrayStreamSettings.cpp and
--   XrayConfigBuilder.cpp. The port of the inbound is an argument in place of a setting, base64
--   decoding is a parameter. An object or an error text stands for a function that returns an
--   object and sets *errorMessage. Xray/Reading is the abstract view of an
--   outbound, Xray/Address how the endpoint of a WireGuard peer is read.
-- SingBox/RuleSets, Matchers, Rule, Route, DnsSection, Outbounds, Config: the generators of
--   src/runtime/singbox, with src/rulesets/RuleSetNormalizer.cpp and
--   src/routing/RoutingGeoUtils.cpp. A QSet is a list without repetitions in the order of its
--   insertions, which decides the order of the definitions only; the QStringList of warnings is
--   passed on explicitly; which files the directory of rule sets has is an argument. The option
--   tunMode, which no code reads, is left out.
--
-- Messages for people are constructors, named for what they say, with the texts that are put into
-- them, except in Xray and SingBox, which have the texts themselves. Log lines, signals, widgets,
-- network access, processes and the other platform back ends (system proxy, TUN) are not
-- modelled: they are input and output without logic of their own. Backups and the stores are not
-- modelled.
pub mod Prelude
pub mod Json
pub mod Updater
pub mod Xray
pub mod SingBox
pub mod Dns
pub mod KillSwitch
pub mod Logging
pub mod Routing
pub mod Profiles
pub mod Subscriptions
