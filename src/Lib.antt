-- ===== src/Lib.antt =====
-- A verification library for dns-sync, which keeps the records of a DNS provider in line with the
-- records that a set of sources desires.
--
-- How the parts interact. A reconciliation (controller/controller.go) asks the registry for its
-- records and the sources for their endpoints, lets the registry adjust these, has the planner
-- (plan/) compare both lists, and gives the changes back to the registry. The registry
-- (pkg/sources/dnsmesh/txt.go) keeps the labels of records in TXT records and wraps a provider such
-- as the one in memory (pkg/mem/inmemory.go) or, over HTTP, one behind a server (provider/webhook/,
-- pkg/dns_service/). Sources (source/, pkg/sources/dnsmesh/) make endpoints of Kubernetes objects and
-- are combined by wrappers that merge, deduplicate and filter what other sources return.
--
-- Which file models which code:
--   Endpoint.antt, Endpoint/     endpoint/endpoint.go: the record, its key, ownership (IsOwnedBy,
--                                FilterEndpointsByOwnerID), RemoveDuplicates, the constructors and the
--                                provider-specific properties
--   Targets.antt                 endpoint/endpoint.go: Targets.Less, Same and IsLess, on sorted lists
--   Store.antt, Store/           the *Endpoint pointers: references into a store, with actions that
--                                read and change it; Same and IsLess with their sorts in place
--   DomainFilter.antt, .../      endpoint/domain_filter.go: Match, MatchParent, the constructors; the
--                                JSON forms in Json.antt
--   Labels.antt, Labels/         endpoint/labels.go: NewLabelsFromStringPlain, SerializePlain
--   Plan/Table.antt, .../Table/  plan/plan.go: planTable, filterRecordsForPlan, IsManagedRecord,
--                                normalizeDNSName
--   Plan/Policy.antt, .../       plan/policy.go: the three policies
--   Plan/Conflict.antt, .../     plan/conflict.go: PerResource
--   Plan/Calculate.antt, .../    plan/plan.go: Calculate and what it calls
--   Provider/Memory.antt, .../   pkg/mem/inmemory.go: zones, validateChangeBatch, ApplyChangesZone,
--                                ApplyChanges, EndpointZoneID
--   Provider/Helpers.antt, .../  provider/provider.go, zonefinder.go, recordfilter.go
--   Registry.antt, Registry/     pkg/sources/dnsmesh/txt.go: Records, generateTXTRecord, ApplyChanges
--   Source.antt, Source/Dedup.antt, .../Filter.antt, .../Targets.antt
--                                source/source.go (EndpointsForHostname), dedupsource.go,
--                                multisource.go, targetfiltersource.go
--   Source/Annotations.antt, .../Bounds.antt
--                                source/source.go: what annotations say, execTemplate
--   Source/Kube.antt             what the sources of Kubernetes objects share
--   Source/Node.antt, Pod.antt, Gateway.antt, Ingress.antt, Istio.antt, ServiceEntry.antt,
--   DnsEndpoint.antt and their folders
--                                source/node.go, pod.go, gateway.go, ingress.go, istio_gateway.go,
--                                istio_serviceentry.go, dnsendpoint.go
--   Source/TargetNet.antt        endpoint/target_filter.go
--   ReverseName.antt, .../       pkg/rfc2317/arpa.go: CidrToInAddr
--   MeshService.antt, .../       pkg/sources/dnsmesh/meshservice.go: targets, node ports (Ports),
--                                headless services (Headless), the endpoints and their merge (Merge)
--   Webhook.antt, .../Server.antt   pkg/dns_service/httpapi.go: the handlers
--   Webhook/Client.antt, .../Remote.antt   provider/webhook/webhook.go: the provider's calls
--   Controller/Run.antt          controller/controller.go: RunOnce and the counts of records; about them
--                                Safety.antt, Reports.antt and Verified.antt
--   Controller/Schedule.antt     controller/controller.go: ShouldRunOnce, ScheduleRunOnce
--   Base.antt, Base/, Attempt.antt   what they share
--   Tests.antt, Tests/           runs on small inputs
--
-- State and aliasing. Go shares *Endpoint values between its lists and changes them in place, so the
-- planner works on references into a store: a comparison of target lists sorts them where they stand,
-- and an update inherits the owner label of the record that it replaces. Each endpoint has a list of
-- targets of its own there. `calculate` returns the changes, which are the only field of the Plan that
-- Go returns that a caller reads, and the store that it leaves. The provider in memory, the registry
-- and the sources are given lists of distinct endpoints that nothing else changes meanwhile, so these
-- files have endpoints as values; the zones of the provider are a map of maps that its operations
-- take and return. An operation that may fail returns its error with the state, and a panic of Go on
-- a missing element is an error of its own or `none`.
--
-- Bounds. Every loop is a recursion on the list that it walks, so there is no fuel but in the decimal
-- text of a number, which has one more than the number and is shown to read back as it. Times, lengths and
-- counts are natural numbers without a bound, a TTL is an integer without one; no arithmetic of the
-- modelled code comes near the limit of 64 bits. Texts are lists of bytes; lower case and space are
-- those of ASCII, as in the names that DNS uses. Go's sort is an insertion sort on short slices, which
-- is the one modelled here; a longer slice is sorted by another algorithm with the same result up to
-- the order of equal elements.
--
-- Sources and the network. A source of Kubernetes objects is a function of what its listers return: a
-- list of objects or an error, an object or none. A panic on an object that is missing is an error of
-- its own. The server and the client keep the state of the provider behind them, which each call takes
-- and returns; a network is a function from a request and that state to an answer or an error and the
-- state after it. The answer of a handler is made with the writer of package net/http, where the first
-- status stands.
--
-- What is a parameter: net/netip and net (NetIp, the parsers of Source.antt), regexp (Regex), the
-- order in which Go visits a map (MapOrder, or the order of a list), the equality of package cmp, what
-- the registry, the sources and the provider return to a reconciliation (World), the parsers of
-- durations and numbers (Numbers), the selectors and listers of the Kubernetes client libraries, the
-- texts that templates write, JSON (Codec, and how the record of a filter is written and read), the retries of package backoff.
--
-- What is not modelled: metrics and logging; configuration and the program's start; the generated
-- Kubernetes clients, informers and the constructors of sources; the lists that Records of the provider in memory makes over all zones, since
-- Zones calls itself without end; errors of encoding, which these types do not
-- have.
pub mod Base
pub mod Endpoint
pub mod Targets
pub mod Store
pub mod DomainFilter
pub mod Plan
pub mod Labels
pub mod Provider
pub mod Registry
pub mod Attempt
pub mod Source
pub mod ReverseName
pub mod MeshService
pub mod Webhook
pub mod Controller
pub mod Tests
